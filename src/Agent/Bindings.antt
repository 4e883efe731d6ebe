-- ===== src/Agent/Bindings.antt =====
-- NotificationActionBindings of libs/agent/NotificationActionBindings.cpp: which descriptor the
-- action of which desktop notification activates. The clock is steady_clock in nanoseconds; each
-- reading of it is an argument.
pub mod Invariant
pub mod Expiry
use holonightd.Prelude.{
  ℕ, zero, suc, ◌+◌, ◌-◌, ◌*◌, ◌/◌, ◌%◌, ◌^◌, ◌≤◌, ◌<◌, min, String, ◌≡◌, refl, sym, ap, ◌∙◌, subst,
  ◌≢◌, ◌↔◌, ◌⊎◌, inl, inr, Bool, true, false, not, ◌&&◌, ◌||◌, Option, none, some, List, [], ◌∷◌,
  ◌++◌, map, arith, eq_iff, ltb, leb, if◌then◌else◌, Bool-cases, Option-cases, length, take,
  is_empty, length-take-le, length-append, keep_if, any, All, All-append, Eq, ◌==◌, nat_eq, text_eq,
  is_some,
}
use holonightd.Prelude.Map.{lookup, erase, assign, erase_if}
use holonightd.Agent.Event.{ActivationDescriptor, valid}

pub record Entry : Type 0 where
  pub descriptor : ActivationDescriptor
  pub created_at : ℕ

abbrev pub Entries : Type 0
Entries = List (ℕ × Entry)

abbrev pub capacity : ℕ
capacity = 256

-- 24 hours
abbrev pub lifetime : ℕ
lifetime = 86_400_000_000_000

-- created_at < now - kLifetime
unfoldable pub is_expired : ℕ → Entry → Bool
is_expired now e = ltb (e.created_at + lifetime) now

unfoldable pub prune : ℕ → Entries → Entries
prune now entries = erase_if (is_expired now) entries

-- std::ranges::min_element by creation time: the first of the smallest.
pub oldest : ℕ × Entry → Entries → ℕ × Entry
oldest best [] = best
oldest best (x ∷ xs) = oldest (if ltb x.1.created_at best.1.created_at then x else best) xs

pub drop_oldest : Entries → Entries
unfolding oldest
drop_oldest [] = []
drop_oldest (x ∷ xs) = erase (oldest x xs).0 (x ∷ xs)

pub make_room : ℕ → Entries → Entries
unfolding drop_oldest
make_room new_id entries =
    if not (is_some (lookup new_id entries)) && leb capacity (length entries)
    then drop_oldest entries
    else entries

pub forget : ℕ → Entries → Entries
forget old_id entries = if old_id == 0 then entries else erase old_id entries

-- `now` is read by the prune, `later` for the new entry.
unfoldable pub replace : ℕ → ℕ → ℕ → ℕ → ActivationDescriptor → Entries → Entries
unfolding make_room forget prune
replace now later old_id new_id descriptor entries =
    let kept = forget old_id (prune now entries) in
    if new_id == 0 || not (valid descriptor)
    then kept
    else assign new_id (record { descriptor = descriptor; created_at = later })
        (make_room new_id kept)

unfoldable pub consume : ℕ → ℕ → Entries → Entries × Option ActivationDescriptor
unfolding prune
consume now id entries = elim (lookup id (prune now entries)) [
  | none ↦ (prune now entries, none)
  | some e ↦ (erase id (prune now entries), some e.descriptor)
]

unfoldable pub close : ℕ → Entries → Entries
close id entries = erase id entries
