-- ===== src/Interventions/HumanInput.antt =====
-- interventions/models.py and surfaces/models.py: what an operator sends to a paused session, and
-- what the audit log keeps of it. A viewport's sizes are natural numbers; its scale is left out.
use replay_forge.Base.{
  Bool, List, Result, String, [], arith, false, is_negative, ltb, nat_eqb, not, ok, pos, raise_if,
  reaches, value_error, ℕ, ℤ, ◌>>◌, ◌||◌, ◌∷◌, ◌≡◌,
}
use replay_forge.Text.{len}

pub record Viewport : Type 0 where
  pub width : ℕ
  pub height : ℕ

-- `Viewport.__post_init__`
check_viewport : Viewport → Result (Unit {0})
check_viewport v = raise_if (nat_eqb v.width 0 || nat_eqb v.height 0) value_error

pub data HumanKey : Type 0 where
  enter escape tab shift_tab backspace delete arrow_up arrow_down arrow_left arrow_right : HumanKey

abbrev pub key_value : HumanKey → String
key_value enter = "Enter"
key_value escape = "Escape"
key_value tab = "Tab"
key_value shift_tab = "Shift+Tab"
key_value backspace = "Backspace"
key_value delete = "Delete"
key_value arrow_up = "ArrowUp"
key_value arrow_down = "ArrowDown"
key_value arrow_left = "ArrowLeft"
key_value arrow_right = "ArrowRight"

pub data HumanInput : Type 0 where
  pointer_input : ℤ → ℤ → HumanInput
  text_input : String → HumanInput
  key_input : HumanKey → HumanInput

-- The tests of the constructors of human input.
check_input : HumanInput → Result (Unit {0})
check_input (pointer_input x y) = raise_if (is_negative x || is_negative y) value_error
check_input (text_input text) = raise_if (ltb (len text) 1 || ltb 1000 (len text)) value_error
check_input (key_input key) = ok tt

pub record InterventionFrame : Type 0 where
  pub content : List ℕ
  pub frame_number : ℤ
  pub viewport : Viewport
  pub next_client_sequence : ℤ

-- `InterventionFrame.__post_init__`
check_frame : InterventionFrame → Result (Unit {0})
check_frame f = do
  raise_if (not (reaches f.frame_number 1)) value_error
  raise_if (not (reaches f.next_client_sequence 1)) value_error

pub record HumanInputCommand : Type 0 where
  pub client_sequence : ℤ
  pub source_frame_sequence : ℤ
  pub viewport : Viewport
  pub action : HumanInput

is_outside : HumanInput → Viewport → Bool
is_outside (pointer_input x y) v = reaches x v.width || reaches y v.height
is_outside (text_input text) v = false
is_outside (key_input key) v = false

-- `HumanInputCommand.__post_init__`
unfoldable pub check_command : HumanInputCommand → Result (Unit {0})
unfolding is_outside
check_command c = do
  raise_if (not (reaches c.client_sequence 1) || not (reaches c.source_frame_sequence 1))
      value_error
  raise_if (is_outside c.action c.viewport) value_error

-- The values of the audit log.
pub data Detail : Type 0 where
  number : ℤ → Detail
  label : String → Detail

input_details : HumanInput → List (String × Detail)
input_details (pointer_input x y) =
    ("input_type", label "pointer") ∷ ("x", number x) ∷ ("y", number y) ∷ []
input_details (key_input key) = ("input_type", label "key") ∷ ("key", label (key_value key)) ∷ []
input_details (text_input text) =
    ("input_type", label "text") ∷ ("character_count", number (pos (len text))) ∷ []

-- `audit_details`
pub audit_details : HumanInputCommand → List (String × Detail)
unfolding input_details
audit_details c =
    ("client_sequence", number c.client_sequence)
    ∷ ("source_frame_sequence", number c.source_frame_sequence)
    ∷ ("viewport_height", number (pos c.viewport.height))
    ∷ ("viewport_width", number (pos c.viewport.width))
    ∷ input_details c.action

-- The audit log reveals nothing of a text but its length: two commands that differ only in the text
-- that is typed have the same audit details whenever the two texts are equally long.
pub audit_hides_text :
    (c : HumanInputCommand) (s t : String)
    → len s ≡ len t
    → audit_details (record c { action = text_input s })
      ≡ audit_details (record c { action = text_input t })
unfolding audit_details
audit_hides_text c s t same = ground (arith, same)
