-- ===== src/Memory/Window.antt =====
-- Reading an array through what is left of it at a position: once `drop p b` is known to begin with
-- certain bytes, the reads near `p` compute.
use networking_programming.Base.{
  ℕ, ◌+◌, ◌≤◌, ◌<◌, ◌≡◌, sym, ap, ◌∙◌, ◌∷◌, ◌++◌, length, take, drop, arith, get_elem?,
  get_elem?-drop, get_elem?-total, drop-drop, length-drop, length-append, take-length-append,
  drop-length-append,
}
use networking_programming.Memory.{Bytes, ok, read, slice, of_option}
use networking_programming.Memory.Laws.{slice-ok}

pub read-drop : (b : Bytes) (p k : ℕ) → read b (p + k) ≡ of_option (get_elem? (drop p b) k)
unfolding read
read-drop b p k = ap of_option (sym (get_elem?-drop p k b))

pub read-window : (b : Bytes) (p : ℕ) {x : ℕ} {xs : Bytes} → drop p b ≡ x ∷ xs → read b p ≡ ok x
read-window b p {x} {xs} h =
    let e : p ≡ p + 0 = omega arith in
    let step : read b (p + 0) ≡ ok x = read-drop b p 0 ∙ ap (λ l. of_option (get_elem? l 0)) h in
    ap (read b) e ∙ step

pub read-total : (b : Bytes) (p : ℕ) → p < length b → (x : ℕ) × (read b p ≡ ok x)
unfolding read
read-total b p h = let (x, e) = get_elem?-total b p h in (x, ap of_option e)

pub drop-window :
    (b : Bytes) (p : ℕ) (xs ys : Bytes) → drop p b ≡ xs ++ ys → drop (p + length xs) b ≡ ys
drop-window b p xs ys h =
    sym (drop-drop p (length xs) b) ∙ ap (drop (length xs)) h ∙ drop-length-append xs ys

pub window-le :
    (b : Bytes) (p : ℕ) (xs ys : Bytes)
    → p ≤ length b
    → drop p b ≡ xs ++ ys
    → p + length xs ≤ length b
window-le b p xs ys le h = omega (arith, length-drop p b, ap length h, length-append xs ys)

pub slice-window :
    (b : Bytes) (p : ℕ) (xs ys : Bytes)
    → p ≤ length b
    → drop p b ≡ xs ++ ys
    → slice b p (length xs) ≡ ok xs
slice-window b p xs ys le h =
    slice-ok b p (length xs) (window-le b p xs ys le h)
    ∙ ap ok (ap (take (length xs)) h ∙ take-length-append xs ys)
