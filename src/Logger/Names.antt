-- ===== src/Logger/Names.antt =====
-- The name of a log file, without its extension.
use xchg.Base.{
  ℕ, ◌-◌, ◌≡◌, refl, ap, ◌∙◌, true, List, [], ◌∷◌, ◌++◌, arith, length, bytes_eq_refl,
  length-append, take-length-append, drop-length-append,
}
use xchg.Texts.{codes}
use xchg.Logger.{has_dot, extension, trim_suffix}

has_dot-log : (text : List ℕ) → has_dot (text ++ codes ".log") ≡ true
unfolding has_dot
has_dot-log [] = refl
has_dot-log (c ∷ text) = ground (arith, has_dot-log text)

extension-log : (text : List ℕ) → extension (text ++ codes ".log") ≡ codes ".log"
unfolding extension has_dot
extension-log [] = refl
extension-log (c ∷ text) = rw (has_dot-log text) (extension-log text)

trim_suffix-append : (s suffix : List ℕ) → trim_suffix (s ++ suffix) suffix ≡ s
unfolding trim_suffix
trim_suffix-append s suffix =
    let n : length (s ++ suffix) - length suffix ≡ length s =
      omega (arith, length-append s suffix) in
    rw (n, drop-length-append s suffix, bytes_eq_refl suffix) (take-length-append s suffix)

-- What `GetDir` takes for the name of a log file.
pub trim-log :
    (text : List ℕ) → trim_suffix (text ++ codes ".log") (extension (text ++ codes ".log")) ≡ text
trim-log text =
    ap (trim_suffix (text ++ codes ".log")) (extension-log text)
    ∙ trim_suffix-append text (codes ".log")
