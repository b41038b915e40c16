-- ===== src/Users/Groups.antt =====
-- The supplementary groups that crates/oxinit-user/src/lib.rs finds.
use oxinit.Prelude.{
  ℕ, ◌≡◌, Bool, true, false, ◌&&◌, ◌||◌, none, some, List, [], ◌∷◌, ltb, leb, ◌==◌, any,
}
use oxinit.Text.{Text}
use oxinit.Text.Chars.{lines}
use oxinit.Users.{Identity, fields, number_field, has_member, gid_of}

-- Whether a number stands in a list.
abbrev pub holds : List ℕ → ℕ → Bool
holds gs g = any (λ h. h == g) gs

-- Every number is below the next one, or not above it.
abbrev pub is_ascending : List ℕ → Bool
is_ascending [] = true
is_ascending (g ∷ []) = true
is_ascending (g ∷ h ∷ hs) = ltb g h && is_ascending (h ∷ hs)

abbrev is_sorted : List ℕ → Bool
is_sorted [] = true
is_sorted (g ∷ []) = true
is_sorted (g ∷ h ∷ hs) = leb g h && is_sorted (h ∷ hs)

-- A line of the group file that is an entry with this number and this member.
abbrev pub grants : Text → ℕ → Text → Bool
grants name g line = elim (fields line) [
  | none ↦ false
  | some f ↦ has_member name f && holds (gid_of f) g
]

-- What an entry of the passwd file makes of a name.
pub record IsIdentity (name : Text) (entry : List Text) (group : Text) (id : Identity)
    : Type 0 where
  pub own_name : id.name ≡ name
  pub own_uid : number_field 2 entry ≡ some id.uid
  pub own_gid : number_field 3 entry ≡ some id.gid
  pub ascending : is_ascending id.groups ≡ true
  pub members : (g : ℕ) → holds id.groups g ≡ ((id.gid == g) || any (grants name g) (lines group))
