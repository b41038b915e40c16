-- ===== src/Text/Paths.antt =====
-- `Path::join` on Unix, and when joined paths differ.
use oxinit.Prelude.{◌≡◌, Bool, true, false, ◌==◌, [], ◌∷◌, ◌++◌, arith, if◌then◌else◌}
use oxinit.Text.{Text}

unfoldable pub is_absolute : Text → Bool
is_absolute [] = false
is_absolute (c ∷ cs) = c == b'/'

ends_slash : Text → Bool
ends_slash [] = true
ends_slash (c ∷ []) = c == b'/'
ends_slash (c ∷ d ∷ cs) = ends_slash (d ∷ cs)

-- An absolute path replaces the directory; an empty directory adds no separator.
unfoldable pub join : Text → Text → Text
unfolding ends_slash
join dir name =
    if is_absolute name then name else (if ends_slash dir then dir ++ name else dir ++ b'/' ∷ name)

pub append_cancel : (xs ys zs : Text) → xs ++ ys ≡ xs ++ zs → ys ≡ zs
append_cancel [] ys zs h = h
append_cancel (x ∷ xs) ys zs h = append_cancel xs ys zs (ground arith)

-- Of two names that are both absolute, or both relative.
pub join_injective :
    (dir s t : Text) → is_absolute s ≡ is_absolute t → join dir s ≡ join dir t → s ≡ t
unfolding join
join_injective dir s t same h =
    ground (arith, append_cancel dir s t, append_cancel dir (b'/' ∷ s) (b'/' ∷ t))
