-- ===== src/Lspci.antt =====
-- src/lspci.c: `main`.
pub mod Laws
use util_ironclad.Base.{
  ℕ, ℤ, pos, negsuc, Bool, true, false, List, [], ◌∷◌, ◌++◌, ◌==◌, ◌==ℤ◌, ltb, pos_part,
  if◌then◌else◌, map, length, drop,
}
use util_ironclad.Libc.Text.{Bytes, codes}
use util_ironclad.Libc.Getopt.{getopt}
use util_ironclad.Libc.Format.{hex, hex_wide}
use util_ironclad.Run.{Run, Log, return, stop, ask, when, fail, complain, while_getopt, ◌>>=◌, ◌>>◌}
use util_ironclad.Run.Arrays.{print_array}
use util_ironclad.Commons.{help, version}

-- The lines that `-h` prints.
unfoldable pub usage : List Bytes
unfolding codes
usage = map codes (
    "Usage: lspci [options]" ∷ "" ∷ "Options:" ∷ "-h              Print this help message"
    ∷ "-v              Display version information." ∷ [])

-- `struct devinfo`
pub record DevInfo : Type 0 where
  pub bus : ℕ
  pub func : ℕ
  pub slot : ℕ
  pub device_id : ℕ
  pub vendor_id : ℕ
  pub rev_id : ℕ
  pub subclass : ℕ
  pub device_class : ℕ
  pub prog_if : ℕ

pub data Call : Type 0 where
  listpci : ℕ → Call

-- The replies: whether there is memory for so many elements; what the system call returns for an array of
-- so many, and the elements that it writes.
pub record System : Type 0 where
  pub has_memory : ℕ → Log Call → Bool
  pub list : ℕ → Log Call → ℤ × List DevInfo

unfoldable pub on_opt : Bytes → ℕ → Bytes → Unit {0} → Run Call (Unit {0})
on_opt package_version c optarg s =
    if c == b'h' then help usage else version (codes "lspci") package_version

unfoldable pub on_bad : ℕ → Run Call (Unit {0})
on_bad optopt = complain (codes "lspci: " ++ (optopt ∷ codes " is not a valid argument\n"))

unfoldable pub row : DevInfo → Bytes
row d =
    hex_wide 2 d.bus
    ++ (codes ":"
        ++ (hex_wide 2 d.slot
            ++ (codes ":"
                ++ (hex_wide 2 d.func
                    ++ (codes " Unknown device ("
                        ++ (hex_wide 2 d.device_class
                            ++ (codes ":"
                                ++ (hex_wide 2 d.subclass
                                    ++ (codes ":"
                                        ++ (hex_wide 2 d.prog_if
                                            ++ (codes ") (rev "
                                                ++ (hex d.rev_id ++ codes ")\n"))))))))))))

-- After the devices are fetched.
unfoldable pub show_fetched : ℤ × List DevInfo → Run Call (Unit {0})
show_fetched (ret, buffer) = do
  when (ret ==ℤ negsuc 0) (fail (codes "lspci: could not fetch devices"))
  when (ret ==ℤ pos 0) (stop (pos 1))
  print_array row (pos_part ret) buffer
  stop (pos 0)

-- The elements of an array after a call writes `written` over its first ones.
unfoldable pub overwrite : List DevInfo → List DevInfo → List DevInfo
overwrite written buffer = written ++ drop (length written) buffer

module _ (sys : System) where
  -- `malloc` or `realloc`, and the end of the program where it fails.
  unfoldable pub allocate : ℕ → Run Call (Unit {0})
  allocate count log =
      if sys.has_memory count log
      then return tt log
      else fail (codes "lspci: could not allocate buffer") log

  -- The second call, into the array that was made larger.
  unfoldable pub refetch : ℕ → List DevInfo → Run Call (ℤ × List DevInfo)
  refetch count buffer = do
    (ret, written) ← ask (listpci count) (sys.list count)
    return (ret, overwrite written buffer)

  -- After the first call, with what it returned and wrote.
  unfoldable pub fetch_more : ℤ × List DevInfo → Run Call (ℤ × List DevInfo)
  fetch_more (negsuc n, buffer) = return (negsuc n, buffer)
  fetch_more (pos count, buffer) = elim (ltb 20 count) [
    | false ↦ return (pos count, buffer)
    | true ↦ allocate count >> refetch count buffer
  ]

  unfoldable pub fetch_first : Run Call (ℤ × List DevInfo)
  fetch_first = ask (listpci 20) (sys.list 20) >>= fetch_more

  unfoldable pub fetch : Run Call (ℤ × List DevInfo)
  fetch = allocate 20 >> fetch_first

  unfoldable pub main : Bytes → List Bytes → Run Call (Unit {0})
  main package_version args = do
    while_getopt (on_opt package_version) on_bad (getopt (codes "hv") args) tt
    reply ← fetch
    show_fetched reply
