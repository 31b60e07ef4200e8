-- ===== src/Blkid.antt =====
-- src/blkid.c: `print_fd_uuid` and `main`.
pub mod Laws
use util_ironclad.Base.{
  ℕ, ℤ, pos, Bool, true, false, Option, none, some, List, [], ◌∷◌, ◌++◌, ◌&&◌, ◌==◌, if◌then◌else◌,
  map,
}
use util_ironclad.Libc.Text.{Bytes, codes}
use util_ironclad.Libc.Format.{hex_wide}
use util_ironclad.Libc.Getopt.{Opts, done, opt, bad, getopt}
use util_ironclad.Run.{
  Run, Log, stdout, perror, return, stop, put, ask, fail, while_getopt, ◌>>=◌, ◌>>◌,
}
use util_ironclad.Commons.{help, version}
use util_ironclad.Uuid.{Uuid}

-- The lines that `-h` prints.
unfoldable pub usage : List Bytes
unfolding codes
usage = map codes (
    "Usage: uptime [options]" ∷ "" ∷ "Options:" ∷ "-h              Print this help message"
    ∷ "-v              Display version information." ∷ [])

pub data Call : Type 0 where
  open_device : Bytes → Call
  device_uuid : Bytes → Call
  read_dev : Call

-- The replies: whether a device opens; its UUID, if the `ioctl` succeeds; the names in /dev.
pub record System : Type 0 where
  pub opens : Bytes → Log Call → Bool
  pub uuid_of : Bytes → Log Call → Option Uuid
  pub dev_names : Log Call → Option (List Bytes)

-- `memcmp(&uuid, &zero_uuid, sizeof(uuid_t)) == 0`; the type has no padding.
unfoldable pub is_zero : Uuid → Bool
is_zero u =
    u.time_low == 0
    && u.time_mid == 0
    && u.time_hi_and_version == 0
    && u.clock_seq_hi_and_reserved == 0
    && u.clock_seq_low == 0
    && u.node0 == 0
    && u.node1 == 0
    && u.node2 == 0
    && u.node3 == 0
    && u.node4 == 0
    && u.node5 == 0

-- The loop over `node`.
unfoldable pub node_text : List ℕ → Bytes
node_text [] = []
node_text (n ∷ nodes) = hex_wide 2 n ++ node_text nodes

-- The line of a device.
unfoldable pub uuid_line : Bytes → Uuid → Bytes
unfolding node_text
uuid_line path u =
    path
    ++ (codes ": "
        ++ (hex_wide 8 u.time_low
            ++ (b'-'
                ∷ (hex_wide 4 u.time_mid
                    ++ (b'-'
                        ∷ (hex_wide 4 u.time_hi_and_version
                            ++ (b'-'
                                ∷ (hex_wide 2 u.clock_seq_hi_and_reserved
                                    ++ (hex_wide 2 u.clock_seq_low
                                        ++ (b'-'
                                            ∷ (node_text (
                                                  u.node0 ∷ u.node1 ∷ u.node2 ∷ u.node3 ∷ u.node4
                                                  ∷ u.node5 ∷ [])
                                                ++ codes "\n")))))))))))

unfoldable pub is_visible : Bytes → Bool
is_visible [] = true
is_visible (c ∷ name) = if c == b'.' then false else true

-- The options, where one that is not known is passed over.
unfoldable pub known : Opts → Opts
known (done rest) = done rest
known (opt c arg rest more) = opt c arg rest (known more)
known (bad c rest more) = known more

unfoldable pub on_opt : Bytes → ℕ → Bytes → Unit {0} → Run Call (Unit {0})
on_opt package_version c arg s =
    if c == b'h' then help usage else version (codes "blkid") package_version

module _ (sys : System) where
  unfoldable pub print_fd_uuid : Bytes → Run Call (Unit {0})
  print_fd_uuid path = ask (open_device path) (sys.opens path) >>= (λ opened. elim opened [
    | false ↦ put (perror (codes "blkid: count not open device"))
    | true ↦ ask (device_uuid path) (sys.uuid_of path) >>= (λ reply. elim reply [
      | none ↦ put (perror (codes "blkid: count not fetch uuid of device"))
      | some uuid ↦ if is_zero uuid then return tt else put (stdout (uuid_line path uuid))
    ])
  ])

  unfoldable pub print_paths : List Bytes → Run Call (Unit {0})
  print_paths [] = return tt
  print_paths (path ∷ paths) = do print_fd_uuid path; print_paths paths

  -- The loop over the entries of /dev.
  unfoldable pub print_entries : List Bytes → Run Call (Unit {0})
  print_entries [] = return tt
  print_entries (name ∷ names) = elim (is_visible name) [
    | false ↦ print_entries names
    | true ↦ do print_fd_uuid (codes "/dev/" ++ name); print_entries names
  ]

  unfoldable pub print_dev : Run Call (Unit {0})
  print_dev = do
    folder ← ask read_dev sys.dev_names
    elim folder [
      | none ↦ fail (codes "blkid: count not open /dev")
      | some names ↦ print_entries names
    ]

  unfoldable pub show : List Bytes → Run Call (Unit {0})
  show [] = print_dev
  show (path ∷ paths) = print_paths (path ∷ paths)

  unfoldable pub main : Bytes → List Bytes → Run Call (Unit {0})
  main package_version args = do
    (s, rest) ←
        while_getopt (on_opt package_version) (λ c. return tt) (known (getopt (codes "hv") args)) tt
    show rest
    stop (pos 0)
