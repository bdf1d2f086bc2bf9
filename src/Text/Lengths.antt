-- ===== src/Text/Lengths.antt =====
-- How long the texts of `Text` are.
use Prim.Native.String.{count}
use text.Mathlib.TextLemmas.{length-append, length-cons}
use google_file_system.Prelude.{◌≡◌, String, arith, refl}
use google_file_system.Text.{replace_slashes}

pub count-replace_slashes : (s : String) → count (replace_slashes s) ≡ count s
unfolding replace_slashes
count-replace_slashes String.[] = refl
count-replace_slashes (String.◌∷◌ c s) = ground (
  arith,
  count-replace_slashes s,
  length-append "_" (replace_slashes s),
  length-cons c s,
  length-cons c (replace_slashes s),
)
