-- ===== src/Client/Service/Deletion.antt =====
-- Deleting hosts reports every failure, in any order.
use cloud_android_orchestrat.Prelude.{subst}
use cloud_android_orchestrat.Client.Service.{delete_host}
use cloud_android_orchestrat.Errors.{GoError}
use cloud_android_orchestrat.Client.Requests.{ServiceImpl}
use cloud_android_orchestrat.Client.Service.{Readers, append_error, delete_hosts}
use cloud_android_orchestrat.Prelude.{
  All, ap, sym, ◌↔◌, ◌∙◌, arith, inl, inr, none, some, List, Option, String, [], refl, ◌∷◌, ◌≡◌,
}
use cloud_android_orchestrat.Exec.{Result-cases, Result, err, ok, panic}
use mathlib.Core.List.{Permᴰ}
use mathlib.Core.List.Permᴰ

abbrev add : String → Result (Option GoError) → Result (List GoError) → Result (List GoError)
add x (ok e) (ok es) = ok (append_error x e es)
add x (ok e) (err y) = err y
add x (ok e) (panic p) = panic p
add x (err y) r = err y
add x (panic p) r = panic p

-- What happens to one name.
abbrev collected : (String → Result (Option GoError)) → List String → Result (List GoError)
collected f [] = ok []
collected f (x ∷ xs) = add x (f x) (collected f xs)

-- An addition that succeeds had a call that returned.
add_ok :
    (x : String) (r : Result (Option GoError)) (rest : Result (List GoError)) (es : List GoError)
    → add x r rest ≡ ok es
    → (e : Option GoError) × (tail : List GoError) × (r ≡ ok e)
      × (rest ≡ ok tail)
      × (append_error x e tail ≡ es)
add_ok x (ok e) (ok tail) es h = (e, tail, refl, refl, ground arith)
add_ok x (ok e) (err y) es h = absurd (ground arith)
add_ok x (ok e) (panic p) es h = absurd (ground arith)
add_ok x (err y) rest es h = absurd (ground arith)
add_ok x (panic p) rest es h = absurd (ground arith)

append_error-cong :
    (x : String) (e : Option GoError) {es fs : List GoError}
    → Permᴰ es fs
    → Permᴰ (append_error x e es) (append_error x e fs)
append_error-cong x none p = p
append_error-cong x (some e) p = Permᴰ.cons refl p

append_error-swap :
    (x y : String) (d e : Option GoError) (es : List GoError)
    → Permᴰ (append_error x d (append_error y e es)) (append_error y e (append_error x d es))
append_error-swap x y none e es = Permᴰ.refl _
append_error-swap x y (some d) none es = Permᴰ.refl _
append_error-swap x y (some d) (some e) es = Permᴰ.swap refl refl

two : {A : Type 0} {x x' y y' : A} (P : A → A → Type 0) → x ≡ x' → y ≡ y' → P x y → P x' y'
two {x' = x'} {y = y} P e d p = subst (λ z. P x' z) d (subst (λ z. P z y) e p)

-- In any order of the names the same errors are collected.
collected-Perm :
    (f : String → Result (Option GoError)) {xs ys : List String} (es : List GoError)
    → Permᴰ xs ys
    → collected f xs ≡ ok es
    → (fs : List GoError) × (collected f ys ≡ ok fs) × Permᴰ es fs
collected-Perm f es Permᴰ.nil h = (es, h, Permᴰ.refl es)
collected-Perm f es (Permᴰ.cons {a = x} {b = y} {l₁ = xs} {l₂ = ys} e p) h =
    let (d, tail, r, t, eq) = add_ok x (f x) (collected f xs) es h in
    let (fs, g, q) = collected-Perm f tail p t in
    (
      append_error x d fs,
      subst (λ z. collected f (z ∷ ys) ≡ ok (append_error x d fs)) e (rw (r, g) refl),
      subst (λ z. Permᴰ z (append_error x d fs)) eq (append_error-cong x d q),
    )
collected-Perm f es (Permᴰ.swap {a = x} {b = y} {l = xs} e1 e2) h =
    let (d, tail, r, t, eq) = add_ok x (f x) (collected f (y ∷ xs)) es h in
    let (e, rest, r', t', eq') = add_ok y (f y) (collected f xs) tail t in
    (
      append_error y e (append_error x d rest),
      two (λ z u. collected f (z ∷ u ∷ xs) ≡ ok (append_error y e (append_error x d rest))) e2 e1
          (rw (r, r', t') refl),
      subst (λ z. Permᴰ z (append_error y e (append_error x d rest)))
          (ap (append_error x d) eq' ∙ eq) (append_error-swap x y d e rest),
    )
collected-Perm f es (Permᴰ.trans p q) h =
    let (fs, g, r) = collected-Perm f es p h in
    let (gs, g', r') = collected-Perm f fs q g in (gs, g', Permᴰ.trans r r')

append_error-nil :
    (x : String) (e : Option GoError) (es : List GoError)
    → append_error x e es ≡ []
    → (e ≡ none) × (es ≡ [])
append_error-nil x none es h = (refl, h)
append_error-nil x (some e) es h = absurd (ground arith)

collected_nil :
    (f : String → Result (Option GoError)) (xs : List String)
    → collected f xs ≡ ok []
    → All (λ x. f x ≡ ok none) xs
collected_nil f [] h = tt
collected_nil f (x ∷ xs) h =
    let (e, tail, r, t, eq) = add_ok x (f x) (collected f xs) [] h in
    let (no_error, no_more) = append_error-nil x e tail eq in
    (r ∙ ap ok no_error, collected_nil f xs (t ∙ ap ok no_more))

nil_collected :
    (f : String → Result (Option GoError)) (xs : List String)
    → All (λ x. f x ≡ ok none) xs
    → collected f xs ≡ ok []
nil_collected f [] h = refl
nil_collected f (x ∷ xs) (h, hs) = rw (h, nil_collected f xs hs) refl

module _ (c : ServiceImpl (Unit {0})) (json : Readers) where
  abbrev outcome : String → Result (Option GoError)
  outcome name = (delete_host c json name tt).0

  delete_hosts-collected :
      (names : List String) → (delete_hosts c json names tt).0 ≡ collected outcome names
  unfolding delete_hosts
  delete_hosts-collected [] = refl
  delete_hosts-collected (x ∷ xs) = elim (Result-cases (delete_host c json x tt).0) [
    | inl (e, p) ↦
        rw (p, ← delete_hosts-collected xs)
          (elim (Result-cases (delete_hosts c json xs tt).0) [
            | inl (es, q) ↦ rw q refl
            | inr (inl (y, q)) ↦ rw q refl
            | inr (inr (y, q)) ↦ rw q refl
          ])
    | inr (inl (y, p)) ↦ rw p refl
    | inr (inr (y, p)) ↦ rw p refl
  ]

  -- Where every call is answered whatever calls came before it, their order decides only the order
  -- of the collected errors.
  pub delete_hosts-Perm :
      (xs ys : List String) (es : List GoError)
      → Permᴰ xs ys
      → (delete_hosts c json xs tt).0 ≡ ok es
      → (fs : List GoError) × ((delete_hosts c json ys tt).0 ≡ ok fs) × Permᴰ es fs
  delete_hosts-Perm xs ys es p h =
      let (fs, g, q) = collected-Perm outcome es p (sym (delete_hosts-collected xs) ∙ h) in
      (fs, delete_hosts-collected ys ∙ g, q)

  -- No error is reported exactly when every call has succeeded.
  delete_hosts_success_iff :
      (names : List String)
      → ((delete_hosts c json names tt).0 ≡ ok [])
        ↔ All (λ name. (delete_host c json name tt).0 ≡ ok none) names
  delete_hosts_success_iff names = (
    λ h. collected_nil outcome names (sym (delete_hosts-collected names) ∙ h),
    λ h. delete_hosts-collected names ∙ nil_collected outcome names h,
  )
