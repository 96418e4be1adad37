-- ===== src/Client/Upload/Slices.antt =====
-- The number of chunks of a size, and the slices of a list.
use cloud_android_orchestrat.Client.Upload.{total_chunks_of}
use cloud_android_orchestrat.Prelude.{
  List, [], ap, arith, drop, length, refl, subst, suc, take, zero, ℕ, ◌*◌, ◌++◌, ◌+◌, ◌-◌, ◌<◌, ◌∷◌,
  ◌≡◌, ◌≤◌,
}
use native.Mathlib.Nat.{div-mul-le_self, lt-div-mul-add, suc-mul}

pub total_chunks-bounds :
    (size c t : ℕ) → 0 < c → total_chunks_of size c ≡ suc t → (t * c < size) × (size ≤ t * c + c)
unfolding total_chunks_of
total_chunks-bounds size c t h e =
    let lo = div-mul-le_self (size + c - 1) c in
    let hi = lt-div-mul-add {a = size + c - 1} h in
    let lo' : suc t * c ≤ size + c - 1 = rw (← e) lo in
    let hi' : size + c - 1 < suc t * c + c = rw (← e) hi in
    let m = suc-mul t c in (omega arith, omega arith)

take-append-drop : {A : Type 0} (c : ℕ) (xs : List A) → take c xs ++ drop c xs ≡ xs
take-append-drop zero xs = refl
take-append-drop (suc c) [] = refl
take-append-drop (suc c) (x ∷ xs) = ap (λ ys. x ∷ ys) (take-append-drop c xs)

drop-empty : {A : Type 0} (n : ℕ) → drop {A = A} n [] ≡ []
drop-empty zero = refl
drop-empty (suc n) = refl

take-empty : {A : Type 0} (n : ℕ) → take {A = A} n [] ≡ []
take-empty zero = refl
take-empty (suc n) = refl

nothing : {A : Type 0} (c n : ℕ) → take {A = A} c [] ++ drop n [] ≡ []
nothing c n = rw (take-empty c, drop-empty n) refl

pub take-drop-append :
    {A : Type 0} (c k : ℕ) (xs : List A) → take c (drop k xs) ++ drop (k + c) xs ≡ drop k xs
take-drop-append c zero xs = let e : 0 + c ≡ c = omega arith in rw e (take-append-drop c xs)
take-drop-append c (suc k) [] = nothing c (suc k + c)
take-drop-append c (suc k) (x ∷ xs) =
    let e : suc (k + c) ≡ suc k + c = omega arith in
    subst (λ n. take c (drop k xs) ++ drop n (x ∷ xs) ≡ drop k xs) e (take-drop-append c k xs)

pub length-drop : {A : Type 0} (k : ℕ) (xs : List A) → length (drop k xs) ≡ length xs - k
length-drop zero xs = omega arith
length-drop (suc k) [] = omega arith
length-drop (suc k) (x ∷ xs) = omega (arith, length-drop k xs)

pub total_chunks-zero : (size c : ℕ) → 0 < c → total_chunks_of size c ≡ 0 → size ≡ 0
unfolding total_chunks_of
total_chunks-zero size c h e =
    let hi = lt-div-mul-add {a = size + c - 1} h in
    let hi' : size + c - 1 < 0 * c + c = rw (← e) hi in omega arith

pub length-zero : {A : Type 0} (xs : List A) → length xs ≡ 0 → xs ≡ []
length-zero [] e = refl
length-zero (x ∷ xs) e = absurd (omega arith)

pub length-take : {A : Type 0} (n : ℕ) (xs : List A) → n ≤ length xs → length (take n xs) ≡ n
length-take zero xs h = refl
length-take (suc n) [] h = absurd (omega arith)
length-take (suc n) (x ∷ xs) h = omega (arith, length-take n xs (omega arith))
