-- ===== src/Shared/Ids/Roundtrip.antt =====
-- An identifier that was made is read back.
use replay_forge.Base.{String, arith, ok, some, true, ◌≡◌}
use replay_forge.Text.{append, every, is_lower, len}
use replay_forge.Shared.Ids.{
  EntityKind, id_match, is_hex, kind_matches, kind_of, new_id, parse_id, prefix,
}

-- An identifier of a kind over 32 hexadecimal digits is parsed, as one of that kind, to itself.
pub parse_id-new_id :
    (kind : EntityKind) (digits : String)
    → every is_hex digits ≡ true
    → len digits ≡ 32
    → parse_id (new_id kind digits) (some kind) ≡ ok (new_id kind digits)
unfolding parse_id new_id id_match kind_of kind_matches prefix append is_lower
parse_id-new_id EntityKind.execution digits hex long = ground (arith, hex, long)
parse_id-new_id EntityKind.run digits hex long = ground (arith, hex, long)
parse_id-new_id EntityKind.suite digits hex long = ground (arith, hex, long)
parse_id-new_id EntityKind.session digits hex long = ground (arith, hex, long)
parse_id-new_id EntityKind.intervention digits hex long = ground (arith, hex, long)
parse_id-new_id EntityKind.evidence digits hex long = ground (arith, hex, long)
parse_id-new_id EntityKind.decision digits hex long = ground (arith, hex, long)
parse_id-new_id EntityKind.event digits hex long = ground (arith, hex, long)
parse_id-new_id EntityKind.trace digits hex long = ground (arith, hex, long)
