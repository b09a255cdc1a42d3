-- ===== src/Proto/Objects/Finding.antt =====
-- What `fromObject` finds where `toObject` put a field.
use ibridger.Common.{
  ◌≡◌, refl, ◌∙◌, ap, arith, All, List, [], ◌∷◌, Bool, true, false, Option, none, some, ite, if_pos,
  if_neg,
}
use ibridger.Common.Text.{Text, text_dec}
use ibridger.Errors.{Result, ok}
use ibridger.Proto.Fields.Values.{OptionAll}
use ibridger.Proto.Objects.{
  Value, Properties, end, property, find, assign, assign_some, put_all, not_null, check, convert,
  shown, blank,
}

abbrev pub or_else {ℓ} : {A : Type ℓ} → Option A → Option A → Option A
or_else none b = b
or_else (some a) b = some a

find-assign :
    (key k : Text) (v : Value) (ps : Properties)
    → find key (assign k v ps) ≡ ite (text_dec k key) (not_null v) (find key ps)
unfolding find assign
find-assign key k v end = refl
find-assign key k v (property j u ps) = ground (arith, find-assign key k v ps)

-- A value that is put is never null.
abbrev pub Solid : Option Value → Type 0
Solid none = Unit {0}
Solid (some v) = not_null v ≡ some v

find-assign_some :
    (key k : Text) (v : Option Value) (ps : Properties)
    → Solid v
    → find key (assign_some k v ps) ≡ ite (text_dec k key) (or_else v (find key ps)) (find key ps)
find-assign_some key k none ps h = elim (text_dec k key) [
  | yes e ↦ rw (if_pos _ e) refl
  | no n ↦ rw (if_neg _ n) refl
]
find-assign_some key k (some v) ps h = find-assign key k v ps ∙ (rw h refl)

pub shown-Solid {ℓ} :
    {A : Type ℓ} (f : A → Value) (a : Option A)
    → ((x : A) → not_null (f x) ≡ some (f x))
    → Solid (shown f a)
unfolding shown
shown-Solid f none h = tt
shown-Solid f (some a) h = h a

pub blank-Solid : (d : Bool) (v : Value) → not_null v ≡ some v → Solid (blank d v)
unfolding blank
blank-Solid true v h = h
blank-Solid false v h = tt

-- What `find` finds after `put_all`.
abbrev pub found : Text → List (Text × Option Value) → Option Value → Option Value
found key [] before = before
found key ((k, v) ∷ fs) before = found key fs (ite (text_dec k key) (or_else v before) before)

pub find-put_all :
    (key : Text) (fs : List (Text × Option Value)) (ps : Properties)
    → All (λ f. Solid f.1) fs
    → find key (put_all fs ps) ≡ found key fs (find key ps)
unfolding put_all
find-put_all key [] ps h = refl
find-put_all key ((k, v) ∷ fs) ps (h, hs) =
    find-put_all key fs (assign_some k v ps) hs ∙ ap (found key fs) (find-assign_some key k v ps h)

-- A field as the message has it, or its default where the options ask for defaults.
abbrev pub filled {ℓ} : {A : Type ℓ} → Bool → A → Option A → Option A
filled d a (some x) = some x
filled true a none = some a
filled false a none = none

pub convert-shown {ℓ} :
    {A : Type ℓ} (f : Value → Result A) (show : A → Value) (Fits : A → Type 0) (d : Bool)
    (default : A) (a : Option A)
    → ((x : A) → Fits x → f (show x) ≡ ok x)
    → Fits default
    → OptionAll Fits a
    → convert f (or_else (shown show a) (or_else (blank d (show default)) none))
      ≡ ok (filled d default a)
unfolding convert shown blank
convert-shown f show Fits d default (some x) law h hx = rw (law x hx) refl
convert-shown f show Fits true default none law h hx = rw (law default h) refl
convert-shown f show Fits false default none law h hx = refl

-- Every text can be shown.
pub has_text : (t : Option Text) → OptionAll (λ x. Unit {0}) t
has_text none = tt
has_text (some t) = tt

pub check-shown {ℓ} :
    {A : Type ℓ} (test : Value → Bool) (show : A → Value) (d : Bool) (default : A) (a : Option A)
    (complaint : Text) (rest : Option Text)
    → ((x : A) → test (show x) ≡ true)
    → check test complaint (or_else (shown show a) (or_else (blank d (show default)) none)) rest
      ≡ rest
unfolding check shown blank
check-shown test show d default (some x) complaint rest h = rw (h x) refl
check-shown test show true default none complaint rest h = rw (h default) refl
check-shown test show false default none complaint rest h = refl

pub check-shown_if {ℓ} :
    {A : Type ℓ} (test : Value → Bool) (show : A → Value) (Fits : A → Type 0) (d : Bool)
    (default : A) (a : Option A) (complaint : Text) (rest : Option Text)
    → ((x : A) → Fits x → test (show x) ≡ true)
    → Fits default
    → OptionAll Fits a
    → check test complaint (or_else (shown show a) (or_else (blank d (show default)) none)) rest
      ≡ rest
unfolding check shown blank
check-shown_if test show Fits d default (some x) complaint rest law h hx = rw (law x hx) refl
check-shown_if test show Fits true default none complaint rest law h hx = rw (law default h) refl
check-shown_if test show Fits false default none complaint rest law h hx = refl
