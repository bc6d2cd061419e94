-- ===== src/Retention/Names.antt =====
-- A window and the files beside it, by their names.
use dotagent.Common.{
  ℕ, ◌≡◌, refl, sym, ap, ◌∙◌, inl, inr, true, false, none, some, [], ◌∷◌, ◌++◌, append_assoc, arith,
  Bool-cases, Option-cases, some_inj,
}
use dotagent.Common.Text.{Text, codes, text_eq, text_eq_iff}
use dotagent.Common.Text.Digits.{has, rsplit_once-some}
use dotagent.Common.Text.Lines.{is_empty, rsplit_once}
use dotagent.Retention.{extension, file_stem, with_extension, has_extension, window_for_sidecar}

rsplit_once-whole : (c : ℕ) (t : Text) → has c t ≡ false → rsplit_once c t ≡ none
unfolding rsplit_once
rsplit_once-whole c [] h = refl
rsplit_once-whole c (d ∷ t) h = ground (arith, rsplit_once-whole c t)

pub rsplit_once-append :
    (c : ℕ) (s t : Text) → has c t ≡ false → rsplit_once c (s ++ (c ∷ t)) ≡ some (s, t)
unfolding rsplit_once
rsplit_once-append c [] t h = ground (arith, rsplit_once-whole c t)
rsplit_once-append c (d ∷ s) t h = rw (rsplit_once-append c s t h) refl

-- a name with something before its last dot and something after it
record Named (name stem ext : Text) : Type 0 where
  whole : name ≡ stem ++ (b'.' ∷ ext)
  some_stem : is_empty stem ≡ false
  no_dot : has b'.' ext ≡ false

extension-Named :
    (name ext : Text) → extension name ≡ some ext → (stem : Text) × Named name stem ext
unfolding extension
extension-Named name ext e = elim (Bool-cases (text_eq name (codes ".."))) [
  | inl dots ↦ absurd (cc (rw dots at e))
  | inr b ↦ elim (Option-cases (rsplit_once b'.' name)) [
    | inl n ↦ absurd (cc (rw (b, n) at e))
    | inr ((before, after), split) ↦ elim (Bool-cases (is_empty before)) [
      | inl nothing ↦ absurd (cc (rw (b, split, nothing) at e))
      | inr stem ↦
          let at_dot = rsplit_once-some b'.' name before after split in
          let same : after ≡ ext = some_inj (rw (b, split, stem) at e) in
          (
            before,
            record {
              whole = at_dot.0 ∙ ap (λ (t : Text). before ++ (b'.' ∷ t)) same;
              some_stem = stem;
              no_dot = rw (sym same) at_dot.1;
            },
          )
    ]
  ]
]

-- two dots are no such name
not_dots :
    (stem ext : Text)
    → is_empty stem ≡ false
    → is_empty ext ≡ false
    → text_eq (stem ++ (b'.' ∷ ext)) (codes "..") ≡ false
not_dots [] ext p q = cc
not_dots (c ∷ stem) [] p q = cc
not_dots (c ∷ []) (d ∷ ext) p q = ground arith
not_dots (c ∷ e ∷ []) (d ∷ ext) p q = ground arith
not_dots (c ∷ e ∷ f ∷ stem) (d ∷ ext) p q = ground arith

module _ (stem ext : Text) (p : is_empty stem ≡ false) (q : is_empty ext ≡ false)
    (r : has b'.' ext ≡ false) where
  pub extension-append : extension (stem ++ (b'.' ∷ ext)) ≡ some ext
  unfolding extension
  extension-append = rw (not_dots stem ext p q, rsplit_once-append b'.' stem ext r, p) refl

  pub file_stem-append : file_stem (stem ++ (b'.' ∷ ext)) ≡ stem
  unfolding file_stem
  file_stem-append = rw (not_dots stem ext p q, rsplit_once-append b'.' stem ext r, p) refl

  pub with_extension-append :
      (new : Text) → with_extension (stem ++ (b'.' ∷ ext)) new ≡ stem ++ (b'.' ∷ new)
  unfolding with_extension
  with_extension-append new = rw file_stem-append refl

-- a window's name
json-Named :
    (name : Text)
    → has_extension name (codes "json") ≡ true
    → (stem : Text) × (is_empty stem ≡ false) × (name ≡ stem ++ codes ".json")
json-Named name h = elim (Option-cases (extension name)) [
  | inl n ↦ absurd (cc (rw n at h))
  | inr (ext, e) ↦
      let same : ext ≡ codes "json" = (text_eq_iff ext (codes "json")).0 (rw e at h) in
      let (stem, named) =
        extension-Named name (codes "json") (e ∙ ap (λ (t : Text). some t) same) in
      (stem, named.some_stem, named.whole)
]

-- the files beside a window
beside :
    (name stem new : Text)
    → is_empty stem ≡ false
    → name ≡ stem ++ codes ".json"
    → with_extension name new ≡ stem ++ (b'.' ∷ new)
beside name stem new p whole =
    ap (λ (n : Text). with_extension n new) whole
    ∙ with_extension-append stem (codes "json") p refl refl new

-- The lock beside a window leads back to the window, and is no window itself.
pub window_for_sidecar-lock :
    (name : Text)
    → has_extension name (codes "json") ≡ true
    → (window_for_sidecar (with_extension name (codes "lock")) ≡ name)
      × (has_extension (with_extension name (codes "lock")) (codes "json") ≡ false)
window_for_sidecar-lock name h =
    let (stem, p, whole) = json-Named name h in
    let lock = beside name stem (codes "lock") p whole in
    (
      ap window_for_sidecar lock
          ∙ with_extension-append stem (codes "lock") p refl refl (codes "json")
          ∙ sym whole,
      rw (lock, extension-append stem (codes "lock") p refl refl) refl,
    )

is_empty-append : (s t : Text) → is_empty s ≡ false → is_empty (s ++ t) ≡ false
is_empty-append [] t h = cc
is_empty-append (c ∷ s) t h = refl

-- The temporary file beside a window leads to another name than the window's: one that ends in two
-- extensions.
pub window_for_sidecar-tmp :
    (name : Text)
    → has_extension name (codes "json") ≡ true
    → window_for_sidecar (with_extension name (codes "json.tmp")) ≡ name ++ codes ".json"
window_for_sidecar-tmp name h =
    let (stem, p, whole) = json-Named name h in
    let longer : is_empty (stem ++ codes ".json") ≡ false =
      is_empty-append stem (codes ".json") p in
    let tmp : with_extension name (codes "json.tmp") ≡ (stem ++ codes ".json") ++ codes ".tmp" =
      beside name stem (codes "json.tmp") p whole
      ∙ sym (append_assoc stem (codes ".json") (codes ".tmp")) in
    ap window_for_sidecar tmp
    ∙ with_extension-append (stem ++ codes ".json") (codes "tmp") longer refl refl (codes "json")
    ∙ ap (λ (n : Text). n ++ codes ".json") (sym whole)
