-- ===== src/Users.antt =====
-- crates/oxinit-user/src/lib.rs: the ids of a service's user, from the texts of the passwd and the group
-- file. Reading the files is left out.
pub mod Groups
mod Tests
use oxinit.Prelude.{
  ℕ, zero, suc, ◌≡◌, Bool, true, false, ◌&&◌, Option, none, some, List, [], ◌∷◌, ◌++◌, ltb, leb,
  ◌==◌, if◌then◌else◌, any, length, Outcome, ok, err, ◌>>=◌, ok_or,
}
use oxinit.Text.{Text, codes, str_eq, split_on, parse_unsigned}
use oxinit.Text.Chars.{trim, lines, trim_start, trim_end}
use oxinit.Time.{u32_max}

pub data UserError : Type 0 where
  unknown malformed : (name : Text) → UserError
  read : (path message : Text) → UserError

pub record Identity : Type 0 where
  pub name : Text
  pub uid : ℕ
  pub gid : ℕ
  pub groups : List ℕ

abbrev starts_hash : Text → Bool
starts_hash [] = false
starts_hash (c ∷ cs) = c == b'#'

abbrev is_blank : Text → Bool
is_blank [] = true
is_blank (c ∷ cs) = false

unfoldable pub fields : Text → Option (List Text)
fields line =
    let t = trim line in
    if is_blank t
    then none
    else (if starts_hash t
        then none
        else (if ltb (length (split_on b':' t)) 4 then none else some (split_on b':' t)))

-- `lines().filter_map(fields)`.
unfoldable pub entries : List Text → List (List Text)
entries [] = []
entries (line ∷ rest) = elim (fields line) [ none ↦ entries rest | some f ↦ f ∷ entries rest ]

abbrev pub first_is : Text → List Text → Bool
first_is name [] = false
first_is name (f ∷ fs) = str_eq f name

unfoldable pub find_entry : Text → List (List Text) → Option (List Text)
find_entry name [] = none
find_entry name (f ∷ fs) = if first_is name f then some f else find_entry name fs

abbrev pub get_field : ℕ → List Text → Option Text
get_field n [] = none
get_field zero (f ∷ fs) = some f
get_field (suc n) (f ∷ fs) = get_field n fs

-- `get(n).and_then(|v| v.parse().ok())`.
abbrev pub number_field : ℕ → List Text → Option ℕ
number_field n fs = elim (get_field n fs) [ none ↦ none | some t ↦ parse_unsigned u32_max t ]

-- Whether the name is one of the members of a group's entry.
abbrev pub has_member : Text → List Text → Bool
has_member name fs = elim (get_field 3 fs) [
  | none ↦ false
  | some members ↦ any (λ member. str_eq member name) (split_on b',' members)
]

abbrev pub gid_of : List Text → List ℕ
gid_of fs = elim (number_field 2 fs) [ none ↦ [] | some gid ↦ gid ∷ [] ]

unfoldable pub member_gids : Text → List (List Text) → List ℕ
member_gids name [] = []
member_gids name (f ∷ fs) =
    if has_member name f then gid_of f ++ member_gids name fs else member_gids name fs

-- `sort_unstable` on integers, whose result is the one ascending list.
unfoldable pub insert_sorted : ℕ → List ℕ → List ℕ
insert_sorted g [] = g ∷ []
insert_sorted g (h ∷ hs) = let rest = insert_sorted g hs in if leb g h then g ∷ h ∷ hs else h ∷ rest

unfoldable pub sort : List ℕ → List ℕ
sort [] = []
sort (g ∷ gs) = insert_sorted g (sort gs)

unfoldable pub dedup : List ℕ → List ℕ
dedup [] = []
dedup (g ∷ []) = g ∷ []
dedup (g ∷ h ∷ hs) = let rest = dedup (h ∷ hs) in if g == h then rest else g ∷ rest

unfoldable pub identity_of : Text → List Text → Text → Outcome UserError Identity
identity_of name entry group = elim (number_field 2 entry) [
  | none ↦ err (malformed name)
  | some uid ↦ elim (number_field 3 entry) [
    | none ↦ err (malformed name)
    | some gid ↦ ok (record {
      name = name;
      uid = uid;
      gid = gid;
      groups = dedup (sort (gid ∷ member_gids name (entries (lines group))));
    })
  ]
]

unfoldable pub resolve : Text → Text → Text → Outcome UserError Identity
resolve name passwd group =
    ok_or (unknown name) (find_entry name (entries (lines passwd))) >>= λ entry.
    identity_of name entry group

unfoldable pub find_uid : ℕ → List (List Text) → Option (List Text)
find_uid uid [] = none
find_uid uid (f ∷ fs) = elim (number_field 2 f) [
  | none ↦ find_uid uid fs
  | some u ↦ if u == uid then some f else find_uid uid fs
]

unfoldable pub name_of : ℕ → Text → Option Text
name_of uid passwd = elim (find_uid uid (entries (lines passwd))) [
  | none ↦ none
  | some f ↦ get_field 0 f
]
