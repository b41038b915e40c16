-- ===== src/Cgroups.antt =====
-- crates/oxinit/src/cgroup.rs: the cgroups of the services, each with the descriptor that tells when it
-- empties. Opening and reading a descriptor are the kernel's, and parameters, as is the reading of
-- bytes as UTF-8.
pub mod Linked
mod Tests
use oxinit.Prelude.{
  ℕ, zero, suc, ◌≡◌, Bool, true, false, Option, none, some, List, [], ◌∷◌, ◌++◌, leb, length, find,
  Outcome, ok, err, if◌then◌else◌,
}
use oxinit.Text.{Text, str_eq}
use oxinit.Time.{u32_max}
use oxinit.Cgroup.Calls.{Kernel, Op}
use oxinit.Cgroup.{CgroupError, create_dir, events, new, parse_populated}
use oxinit.Text.Paths.{join}

pub record Handle : Type 0 where
  pub unit : Text
  pub cgroup : Text
  pub events_fd : ℕ

-- The slice of the hierarchy, if there is one.
pub record Cgroups : Type 0 where
  pub hierarchy : Option Text
  pub handles : List Handle

pub data AddError : Type 0 where
  not_created : (source : CgroupError) → AddError
  not_opened : (path : Text) → AddError

abbrev pub unavailable : Cgroups
unavailable = record { hierarchy = none; handles = [] }

unfoldable pub handle : ℕ → List Handle → Option Handle
handle n [] = none
handle zero (h ∷ hs) = some h
handle (suc n) (h ∷ hs) = handle n hs

-- The unit of the cgroup that a wake-up names.
unfoldable pub unit_of : ℕ → Cgroups → Option Text
unit_of id s = elim (handle id s.handles) [ none ↦ none | some h ↦ some h.unit ]

unfoldable pub get : Text → Cgroups → Option Text
get name s = elim (find (λ h. str_eq h.unit name) s.handles) [
  | none ↦ none
  | some h ↦ some h.cgroup
]

-- The descriptors to register, from place `n` on.
unfoldable pub events_from : ℕ → List Handle → List (ℕ × ℕ)
events_from n [] = []
events_from n (h ∷ hs) =
    let rest = events_from (suc n) hs in if leb n u32_max then (n, h.events_fd) ∷ rest else rest

module _ (kernel : Kernel) (open_read : List Op → Text → Option ℕ) where
  unfoldable pub open_all : Text → ℕ → List Op → Outcome CgroupError Cgroups × List Op
  open_all root pid done = opened (new kernel root pid done)
    where
      opened : Outcome CgroupError Text × List Op → Outcome CgroupError Cgroups × List Op
      opened (err e, after) = (err e, after)
      opened (ok slice, after) = (ok (record { hierarchy = some slice; handles = [] }), after)

  -- Behind the making of the directory.
  unfoldable pub open_events :
      Text
      → Text
      → Cgroups
      → Outcome CgroupError (Unit {0}) × List Op
      → (Cgroups × Outcome AddError (Unit {0})) × List Op
  open_events name cgroup s (err source, after) = ((s, err (not_created source)), after)
  open_events name cgroup s (ok _, after) = elim (open_read after (events cgroup)) [
    | none ↦ ((s, err (not_opened (events cgroup))), after)
    | some fd ↦ (
      (
        record s {
          handles = s.handles ++ record { unit = name; cgroup = cgroup; events_fd = fd } ∷ [];
        },
        ok tt,
      ),
      after,
    )
  ]

  -- Nothing is done where there is no hierarchy.
  unfoldable pub add :
      Text → Text → Cgroups → List Op → (Cgroups × Outcome AddError (Unit {0})) × List Op
  add name full_name s done = elim s.hierarchy [
    | none ↦ ((s, ok tt), done)
    | some slice ↦
        open_events name (join slice full_name) s (create_dir kernel (join slice full_name) done)
  ]

module _ (pread : ℕ → Option (List ℕ)) (from_utf8 : List ℕ → Option Text) where
  -- At most 256 bytes, through the descriptor that is registered.
  unfoldable pub populated : ℕ → Cgroups → Option Bool
  populated id s = elim (handle id s.handles) [
    | none ↦ none
    | some h ↦ elim (pread h.events_fd) [
      | none ↦ none
      | some bytes ↦
          if leb (length bytes) 256
          then elim (from_utf8 bytes) [ none ↦ none | some text ↦ parse_populated text ]
          else none
    ]
  ]
