-- ===== src/Interventions/LeaseRules.antt =====
-- interventions/leases.py: the tests and the replacement leases of the lease service. The arguments
-- `checked` and `now` are the clock's readings, in the order in which the method takes them.
use replay_forge.Base.{
  Bool, Option, Result, arith, err, lease_conflict, lease_expired, lease_not_found, leb, nat_eq,
  nat_eqb, none, not, ok, option_eq, pair_eq, raise_if, some, string_eq, true, value_error, ℕ, ◌&&◌,
  ◌+◌, ◌==◌, ◌>>=◌, ◌>>◌, ◌||◌, ◌≡◌, ◌≢◌,
}
use replay_forge.Dict.{Dict, lookup}
use replay_forge.Shared.Clock.{datetime_eq, utc}
use replay_forge.Shared.Ids.{EntityId}
use replay_forge.Interventions.Owner.{ControlOwner, owner_beq_iff, owner_eq}
use replay_forge.Interventions.Lease.{ControlLease, control_lease}

-- `_leases`
abbrev pub Leases : Type 0
Leases = Dict EntityId ControlLease

or_missing : Option ControlLease → Result ControlLease
or_missing none = err lease_not_found
or_missing (some l) = ok l

unfoldable pub get : EntityId → Leases → Result ControlLease
unfolding or_missing
get session leases = or_missing (lookup leases session)

-- `current.version != expected_version or current.owner != expected_owner`
abbrev pub is_stale : ControlLease → ℕ → ControlOwner → Bool
is_stale current version owner =
    not (nat_eqb current.version version) || not (current.owner == owner)

unfoldable pub check_swap : ControlLease → ℕ → ControlOwner → ControlLease → Result (Unit {0})
check_swap current version owner replacement = do
  raise_if (is_stale current version owner) lease_conflict
  raise_if (not (replacement.session_id == current.session_id)) value_error
  raise_if (not (nat_eqb replacement.version (current.version + 1))) value_error

-- `_assert_current`: the clock is read only where the lease must be unexpired.
unfoldable pub assert_current : ControlLease → ℕ → ControlOwner → Bool → ℕ → Result (Unit {0})
assert_current current version owner require_unexpired checked = do
  raise_if (is_stale current version owner) lease_conflict
  raise_if (require_unexpired && leb current.expires_at.instant checked) lease_expired

-- `assert_can_act`
unfoldable pub assert_can_act : EntityId → ℕ → ControlOwner → ℕ → Leases → Result ControlLease
unfolding get
assert_can_act session version owner checked leases = do
  current ← get session leases
  raise_if (is_stale current version owner) lease_conflict
  raise_if (leb current.expires_at.instant checked) lease_expired
  ok current

-- Whoever is not the owner of the stored lease is refused.
pub other_owner_refused :
    (k : EntityId) (v : ℕ) (o : ControlOwner) (t : ℕ) (s : Leases) {l : ControlLease}
    → lookup s k ≡ some l
    → l.owner ≢ o
    → assert_can_act k v o t s ≡ err lease_conflict
unfolding assert_can_act get
other_owner_refused k v o t s {l} found other = ground (arith, owner_beq_iff l.owner o)

module _ (ttl : ℕ) where
  -- `prepare_heartbeat`
  unfoldable pub prepare_heartbeat : ControlLease → ℕ → ControlOwner → ℕ → ℕ → Result ControlLease
  unfolding assert_current
  prepare_heartbeat current version owner checked now = do
    assert_current current version owner true checked
    control_lease (record current {
      version = current.version + 1;
      last_heartbeat = utc now;
      expires_at = utc (now + ttl);
    })

  -- `prepare_transfer`
  unfoldable pub prepare_transfer :
      ControlLease
      → ℕ
      → ControlOwner
      → ControlOwner
      → Option EntityId
      → Bool
      → ℕ
      → ℕ
      → Result ControlLease
  unfolding assert_current
  prepare_transfer current version owner next_owner intervention require_unexpired checked now = do
    assert_current current version owner require_unexpired checked
    control_lease (record {
      session_id = current.session_id;
      owner = next_owner;
      version = current.version + 1;
      issued_at = utc now;
      last_heartbeat = utc now;
      expires_at = utc (now + ttl);
      intervention_id = intervention;
    })
