-- ===== src/Base/Texts.antt =====
-- Texts as lists of code points, with the functions of Go's `strings` that the handlers call.
use Prim.Native.Nat.{ℕ, zero, suc, ◌+◌, ◌%◌, ◌/◌}
use Prim.Native.Char.{code}
use Prim.Native.String.{String}
use mathlib.Core.Path.{◌≡◌, refl, sym, ap, ◌∙◌}
use mathlib.Core.Logic.{◌↔◌}
use mathlib.Core.Bool.{Bool, true, false, ◌&&◌, ◌||◌}
use mathlib.Core.List.{
  List, [], ◌∷◌, ◌++◌, map, reverse, reverse-cons, reverse-append, reverse-reverse, append_assoc,
}
use native.Mathlib.Omega.{arith}
use den_kit_stash.Base.Tests.{
  leb, ltb, and_true, eq_of_true, Eq, ◌==◌, number_eq, eq_refl, if◌then◌else◌,
}

abbrev pub codes : String → List ℕ
codes String.[] = []
codes (String.◌∷◌ c s) = code c ∷ codes s

-- A text that the program composes or takes apart.
abbrev pub Text : Type 0
Text = List ℕ

abbrev pub starts_with : List ℕ → List ℕ → Bool
starts_with s [] = true
starts_with [] (c ∷ cs) = false
starts_with (x ∷ s) (c ∷ cs) = x == c && starts_with s cs

abbrev pub equal : List ℕ → List ℕ → Bool
equal [] [] = true
equal (x ∷ s) (c ∷ cs) = x == c && equal s cs
equal _ _ = false

pub equal_iff : (s t : List ℕ) → (equal s t ≡ true) ↔ (s ≡ t)
equal_iff [] [] = (λ _. refl, λ _. refl)
equal_iff [] (c ∷ t) = (λ h. absurd (cc h), λ h. absurd (cc h))
equal_iff (x ∷ s) [] = (λ h. absurd (cc h), λ h. absurd (cc h))
equal_iff (x ∷ s) (c ∷ t) = (
  λ h.
      let (p, q) = and_true (x == c) (equal s t) h in
      let same : x ≡ c = eq_of_true x c p in let rest : s ≡ t = (equal_iff s t).0 q in cc,
  λ h. ground (arith, (equal_iff s t).1, eq_refl c),
)

instance abbrev pub codes_eq : Eq (List ℕ)
codes_eq = record { beq = equal; beq_iff = equal_iff }

abbrev pub is_blank : Text → Bool
is_blank [] = true
is_blank (c ∷ s) = false

abbrev pub digits : ℕ → ℕ → Text → Text
digits zero n acc = acc
digits (suc f) n acc =
    let acc' = (b'0' + n % 10) ∷ acc in
    let rest = digits f (n / 10) acc' in if ltb n 10 then acc' else rest

-- strconv.Itoa and `%d`; the number itself bounds its digits
abbrev pub decimal : ℕ → Text
decimal n = digits (suc n) n []

-- The order of `sort.Strings`.
abbrev pub text_leb : Text → Text → Bool
text_leb [] t = true
text_leb (x ∷ s) [] = false
text_leb (x ∷ s) (y ∷ t) = ltb x y || (x == y && text_leb s t)

-- strings.HasSuffix
abbrev pub ends_with : List ℕ → List ℕ → Bool
ends_with s suffix = starts_with (reverse s) (reverse suffix)

-- `unicode.ToLower`, as far as its result can be an ASCII letter.
abbrev pub lower : ℕ → ℕ
lower c =
    if leb b'A' c && leb c b'Z'
    then c + 32
    else if c == 0x130
    then b'i'
    else if c == 0x212a
    then b'k'
    else c

-- strings.ToLower
abbrev pub to_lower : List ℕ → List ℕ
to_lower = map lower

-- `unicode.IsSpace`
abbrev pub is_space : ℕ → Bool
is_space c =
    (leb 9 c && leb c 13)
    || c == 32
    || c == 0x85
    || c == 0xa0
    || c == 0x1680
    || (leb 0x2000 c && leb c 0x200a)
    || c == 0x2028
    || c == 0x2029
    || c == 0x202f
    || c == 0x205f
    || c == 0x3000

abbrev pub drop_while : (ℕ → Bool) → List ℕ → List ℕ
drop_while p [] = []
drop_while p (c ∷ cs) = let rest = drop_while p cs in if p c then rest else c ∷ cs

abbrev pub take_until : (ℕ → Bool) → List ℕ → List ℕ
take_until p [] = []
take_until p (c ∷ cs) = let rest = take_until p cs in if p c then [] else c ∷ rest

-- strings.TrimSpace
abbrev pub trim_space : List ℕ → List ℕ
trim_space s = reverse (drop_while is_space (reverse (drop_while is_space s)))

-- What stands behind the last character that passes the test, or the whole text.
abbrev pub after_last : (ℕ → Bool) → List ℕ → List ℕ
after_last p s = reverse (take_until p (reverse s))

abbrev pub is_slash : ℕ → Bool
is_slash c = c == b'/'

abbrev pub is_dot : ℕ → Bool
is_dot c = c == b'.'

abbrev name_or_root : List ℕ → List ℕ
name_or_root [] = b'/' ∷ []
name_or_root (c ∷ s) = after_last is_slash (c ∷ s)

-- filepath.Base
abbrev pub base : List ℕ → List ℕ
base [] = b'.' ∷ []
base (c ∷ s) = name_or_root (reverse (drop_while is_slash (reverse (c ∷ s))))

abbrev pub contains : (ℕ → Bool) → List ℕ → Bool
contains p [] = false
contains p (c ∷ cs) = p c || contains p cs

-- `strings.TrimPrefix(filepath.Ext(name), ".")` for a name with no slash
abbrev pub extension : List ℕ → List ℕ
extension s = if contains is_dot s then after_last is_dot s else []

pub starts_with-append : (s t : List ℕ) → starts_with (s ++ t) s ≡ true
starts_with-append [] t = refl
starts_with-append (c ∷ s) t = ground (arith, eq_refl c, starts_with-append s t)

pub contains-append :
    (p : ℕ → Bool) (s t : List ℕ) → contains p (s ++ t) ≡ (contains p s || contains p t)
contains-append p [] t = refl
contains-append p (c ∷ s) t = ground (arith, contains-append p s t)

pub contains-reverse : (p : ℕ → Bool) (s : List ℕ) → contains p (reverse s) ≡ contains p s
contains-reverse p [] = refl
contains-reverse p (c ∷ s) =
    rw (reverse-cons c s, contains-append p (reverse s) (c ∷ []), contains-reverse p s)
      (ground arith)

-- Up to the first character that passes the test.
pub take_until-append :
    (p : ℕ → Bool) (s : List ℕ) (c : ℕ) (t : List ℕ)
    → contains p s ≡ false
    → p c ≡ true
    → take_until p (s ++ c ∷ t) ≡ s
take_until-append p [] c t h k = rw k
take_until-append p (x ∷ s) c t h k = ground (arith, take_until-append p s c t)

pub after_last-append :
    (p : ℕ → Bool) (dir : List ℕ) (c : ℕ) (name : List ℕ)
    → contains p name ≡ false
    → p c ≡ true
    → after_last p (dir ++ c ∷ name) ≡ name
after_last-append p dir c name h k =
    ap (λ t. reverse (take_until p t)) turned
    ∙ ap reverse
        (take_until-append p (reverse name) c (reverse dir) (contains-reverse p name ∙ h) k)
    ∙ reverse-reverse name
  where
    turned : reverse (dir ++ c ∷ name) ≡ reverse name ++ c ∷ reverse dir
    turned =
        reverse-append dir (c ∷ name)
        ∙ ap (λ t. t ++ reverse dir) (reverse-cons c name)
        ∙ append_assoc (reverse name) (c ∷ []) (reverse dir)

-- A path that does not end in a slash has its last component as its base.
pub base_of :
    (s : List ℕ) (x : ℕ) (r : List ℕ)
    → reverse s ≡ x ∷ r
    → is_slash x ≡ false
    → base s ≡ after_last is_slash s
base_of [] x r h e = cc
base_of (c ∷ s) x r h e =
    ap (λ t. name_or_root (reverse (drop_while is_slash t))) h
    ∙ ap (λ (b : Bool). name_or_root (reverse (if b then drop_while is_slash r else x ∷ r))) e
    ∙ ap name_or_root (ap reverse (sym h) ∙ reverse-reverse (c ∷ s))
