-- ===== src/Lspci/Laws.antt =====
-- Which devices src/lspci.c lists.
use util_ironclad.Base.{
  ℕ, zero, suc, ◌≤◌, ◌<◌, ◌==◌, ℤ, pos, true, false, List, [], ◌∷◌, ◌++◌, ◌≡◌, refl, arith, map,
  append-nil, ◌∙◌, ap, if◌then◌else◌, ltb, length, take, drop, Bool-cases, inl, inr,
}
use util_ironclad.Libc.Text.{Bytes}
use util_ironclad.Libc.Getopt.{getopt}
use util_ironclad.Run.{Log, next, exit, call, stdout, stop, while_getopt, bind_next}
use util_ironclad.Run.Arrays.{print_array, print_array-take}
use util_ironclad.Lspci.{
  DevInfo, Call, listpci, System, row, show_fetched, overwrite, allocate, refetch, fetch_more,
  fetch_first, fetch, main,
}

module _ {ℓ} {A : Type ℓ} where
  take_whole : (n : ℕ) (xs : List A) → length xs ≤ n → take n xs ≡ xs
  take_whole zero [] h = refl
  take_whole zero (x ∷ xs) h = absurd (omega arith)
  take_whole (suc n) [] h = refl
  take_whole (suc n) (x ∷ xs) h = ap (λ l. x ∷ l) (take_whole n xs (omega arith))

  drop-take : (m n : ℕ) (xs : List A) → n ≤ m → drop m (take n xs) ≡ []
  drop-take zero zero xs h = refl
  drop-take zero (suc n) xs h = absurd (omega arith)
  drop-take (suc m) zero xs h = refl
  drop-take (suc m) (suc n) [] h = refl
  drop-take (suc m) (suc n) (x ∷ xs) h = drop-take m n xs (omega arith)

drop_whole : {A : Type 0} (xs : List A) → drop (length xs) xs ≡ []
drop_whole [] = refl
drop_whole (x ∷ xs) = drop_whole xs

abbrev rows : List DevInfo → Log Call
rows devices = map (λ d. stdout (row d)) devices

print_whole :
    (devices : List DevInfo) (log : Log Call)
    → print_array row (length devices) devices log ≡ (next tt, log ++ rows devices)
print_whole devices log =
    print_array-take row (length devices) devices log (omega arith)
    ∙ ap (λ l. (next tt, log ++ rows l)) (take_whole (length devices) devices (omega arith))

show_fetched_lem :
    (devices : List DevInfo) (log : Log Call)
    → 0 < length devices
    → show_fetched (pos (length devices), devices) log ≡ (exit (pos 0), log ++ rows devices)
unfolding show_fetched
show_fetched_lem devices log h =
    let some_device : (length devices == 0) ≡ false = ground arith in
    rw some_device (
      bind_next {C = Call} {A = Unit {0}} {B = Unit {0}} (print_array row (length devices) devices)
        (λ _. stop (pos 0)) {log = log} {log' = log ++ rows devices} {a = tt}
        (print_whole devices log))

module _ (sys : System) (package_version : Bytes) (devices : List DevInfo)
    (memory : (n : ℕ) (log : Log Call) → sys.has_memory n log ≡ true)
    (kernel : (n : ℕ) (log : Log Call)
      → sys.list n log ≡ (pos (length devices), take n devices)) where
  -- The calls that fetch the devices: one more, with room for all, where 20 elements are too few.
  abbrev pub calls : Log Call
  calls =
      call (listpci 20)
      ∷ (if ltb 20 (length devices) then call (listpci (length devices)) ∷ [] else [])

  overwrite_whole : overwrite devices (take 20 devices) ≡ devices
  unfolding overwrite
  overwrite_whole = elim (Bool-cases (ltb 20 (length devices))) [
    | inl e ↦ rw (drop-take (length devices) 20 devices (ground arith)) (append-nil devices)
    | inr e ↦ rw (take_whole 20 devices (ground arith), drop_whole devices) (append-nil devices)
  ]

  allocate_lem : (n : ℕ) (log : Log Call) → allocate sys n log ≡ (next tt, log)
  unfolding allocate
  allocate_lem n log = rw (memory n log) refl

  refetch_lem :
      (log : Log Call)
      → refetch sys (length devices) (take 20 devices) log
        ≡ (next (pos (length devices), devices), log ++ (call (listpci (length devices)) ∷ []))
  unfolding refetch
  refetch_lem log =
      rw
        (
          kernel (length devices) log,
          take_whole (length devices) devices (omega arith),
          overwrite_whole,
        )
        refl

  fetch_first_lem : fetch_first sys [] ≡ (next (pos (length devices), devices), calls)
  unfolding fetch_first fetch_more
  fetch_first_lem = rw (kernel 20 []) (elim (Bool-cases (ltb 20 (length devices))) [
    | inl e ↦
        rw (fetch_more, e)
          (bind_next {C = Call} {A = Unit {0}} {B = ℤ × List DevInfo}
              (allocate sys (length devices)) (λ _. refetch sys (length devices) (take 20 devices))
              {a = tt} (allocate_lem (length devices) (call (listpci 20) ∷ []))
            ∙ refetch_lem (call (listpci 20) ∷ []))
    | inr e ↦ rw (fetch_more, e, take_whole 20 devices (ground arith)) refl
  ])

  fetch_lem : fetch sys [] ≡ (next (pos (length devices), devices), calls)
  unfolding fetch
  fetch_lem =
      bind_next {C = Call} {A = Unit {0}} {B = ℤ × List DevInfo} (allocate sys 20)
        (λ _. fetch_first sys) {a = tt} (allocate_lem 20 [])
      ∙ fetch_first_lem

  -- Where the kernel has devices, reports their number and writes as many of them as the array has room
  -- for, and memory is found, every device is printed, in order, however many there are.
  pub lspci_all :
      0 < length devices
      → main sys package_version [] [] ≡ (exit (pos 0), calls ++ map (λ d. stdout (row d)) devices)
  unfolding main while_getopt getopt
  lspci_all h =
      bind_next {C = Call} {A = _} {B = Unit {0}} (fetch sys) show_fetched {log = []} {log' = calls}
        fetch_lem
      ∙ show_fetched_lem devices calls h
