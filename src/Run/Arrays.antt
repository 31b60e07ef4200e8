-- ===== src/Run/Arrays.antt =====
-- The loop that prints the elements of an array which the kernel has filled.
use util_ironclad.Base.{
  ℕ, zero, suc, ◌≤◌, List, [], ◌∷◌, ◌++◌, map, length, take, ◌≡◌, refl, ap, ◌∙◌, append_assoc,
  append-nil, arith,
}
use util_ironclad.Libc.Text.{Bytes}
use util_ironclad.Run.{Run, Log, next, stdout, return, undefined, put, ◌>>◌}

module _ {C A : Type 0} (row : A → Bytes) where
  -- `for (int i = 0; i < ret; i++)`, with `left` more elements to print by `row`; `array` has the elements
  -- that were written, and the loop reads what was not written where `ret` is more than them.
  unfoldable pub print_array : ℕ → List A → Run C (Unit {0})
  print_array zero array = return tt
  print_array (suc left) [] = undefined
  print_array (suc left) (a ∷ array) = do put (stdout (row a)); print_array left array

  -- Where enough elements were written, the first ones are printed, in their order.
  pub print_array-take :
      (n : ℕ) (array : List A) (log : Log C)
      → n ≤ length array
      → print_array n array log ≡ (next tt, log ++ map (λ a. stdout (row a)) (take n array))
  unfolding print_array
  print_array-take zero array log h = rw append-nil refl
  print_array-take (suc n) [] log h = absurd (omega arith)
  print_array-take (suc n) (a ∷ array) log h =
      print_array-take n array (log ++ (stdout (row a) ∷ [])) (omega arith)
      ∙ ap (λ l. (next tt, l))
          (append_assoc log (stdout (row a) ∷ []) (map (λ a. stdout (row a)) (take n array)))
