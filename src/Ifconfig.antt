-- ===== src/Ifconfig.antt =====
-- src/ifconfig.c: `main`.
pub mod Laws
use Prim.Native.Nat.{bit_and}
use util_ironclad.Base.{
  ℕ, zero, suc, ℤ, pos, negsuc, Bool, true, false, ◌||◌, Option, none, some, List, [], ◌∷◌, ◌++◌,
  ◌==◌, ◌==ℤ◌, pos_part, if◌then◌else◌, map,
}
use util_ironclad.Libc.Text.{Bytes, codes}
use util_ironclad.Libc.Getopt.{getopt}
use util_ironclad.Libc.Format.{dec, hex, hex_wide, snprintf}
use util_ironclad.Run.{
  Run, Log, return, stop, undefined, ask, when, complain, while_getopt, ◌>>=◌, ◌>>◌,
}
use util_ironclad.Run.Arrays.{print_array}
use util_ironclad.Commons.{help, version}

-- The lines that `-h` prints.
unfoldable pub usage : List Bytes
unfolding codes
usage = map codes (
    "Usage: ifconfig" ∷ "" ∷ "Options:" ∷ "-h              Print this help message"
    ∷ "-b <name>       Block the passed interface" ∷ "-u <name>       Unblock the passed interface"
    ∷ "-v              Display version information." ∷ [])

-- `struct netinterface`. An array of bytes is a function of its indices; `devname` is the text up to its
-- first zero, which is taken to be within the array.
pub record NetInterface : Type 0 where
  pub devname : Bytes
  pub flags : ℕ
  pub mac_addr : ℕ → ℕ
  pub ipv4_addr : ℕ → ℕ
  pub ipv4_subnet : ℕ → ℕ
  pub ipv6_addr : ℕ → ℕ
  pub ipv6_subnet : ℕ → ℕ

-- The variables that the options set.
pub record Settings : Type 0 where
  pub do_block : Bool
  pub do_unblock : Bool
  pub blocked : Option Bytes

abbrev pub defaults : Settings
defaults = record { do_block = false; do_unblock = false; blocked = none }

pub data Call : Type 0 where
  open_interface : Bytes → Call
  config_netinter : ℤ → Bool → Call
  listnetinter : ℕ → Call

-- The replies: the descriptor; `errno` after the system call; what the list returns, and the elements of
-- `buffer` that it writes.
pub record System : Type 0 where
  pub fd : Bytes → Log Call → ℤ
  pub errno : ℤ → Bool → Log Call → ℤ
  pub list : Log Call → ℤ × List NetInterface

-- The loop of `ipv6addr_is_not_zero` from `i` on, with `left` more indices.
unfoldable pub not_zero_from : ℕ → ℕ → (ℕ → ℕ) → Bool
not_zero_from zero i addr = false
not_zero_from (suc left) i addr =
    let rest = not_zero_from left (suc i) addr in if addr i == 0 then rest else true

unfoldable pub ipv6addr_is_not_zero : (ℕ → ℕ) → Bool
ipv6addr_is_not_zero addr = not_zero_from 16 0 addr

-- What the loop of `print_ipv6addr` prints from `i` on.
unfoldable pub ipv6_from : ℕ → ℕ → Bool → (ℕ → ℕ) → Bytes
ipv6_from zero i skipped_0s addr = []
ipv6_from (suc left) i skipped_0s addr =
    let behind_zero = ipv6_from left (suc i) true addr in
    let behind_part = ipv6_from left (suc i) skipped_0s addr in
    if addr i == 0
    then behind_zero
    else ((if skipped_0s then codes ":" else [])
        ++ ((if i == 0 then [] else codes ":")
            ++ (hex (addr i) ++ ((if i == 15 then [] else codes ":") ++ behind_part))))

unfoldable pub print_ipv6addr : (ℕ → ℕ) → Bytes
print_ipv6addr addr = ipv6_from 16 0 false addr

-- `%d.%d.%d.%d`
unfoldable pub dotted : (ℕ → ℕ) → Bytes
dotted a =
    dec (a 0)
    ++ (codes "." ++ (dec (a 1) ++ (codes "." ++ (dec (a 2) ++ (codes "." ++ dec (a 3))))))

unfoldable pub ether : (ℕ → ℕ) → Bytes
ether a =
    hex_wide 2 (a 0)
    ++ (codes ":"
        ++ (hex_wide 2 (a 1)
            ++ (codes ":"
                ++ (hex_wide 2 (a 2)
                    ++ (codes ":"
                        ++ (hex_wide 2 (a 3)
                            ++ (codes ":"
                                ++ (hex_wide 2 (a 4) ++ (codes ":" ++ hex_wide 2 (a 5))))))))))

-- What is printed of an interface. The netmask of the last line is the address.
unfoldable pub interface_text : NetInterface → Bytes
interface_text n =
    n.devname
    ++ (codes ": <"
        ++ ((if bit_and n.flags 1 == 0 then codes "UNBLOCKED" else codes "BLOCKED")
            ++ (codes ">\n\tether "
                ++ (ether n.mac_addr
                    ++ (codes "\n\tinet "
                        ++ (dotted n.ipv4_addr
                            ++ (codes " netmask "
                                ++ (dotted n.ipv4_subnet
                                    ++ (codes "\n"
                                        ++ (if ipv6addr_is_not_zero n.ipv6_addr
                                            then codes "\tinet6 "
                                              ++ (print_ipv6addr n.ipv6_addr
                                                  ++ (codes " netmask "
                                                      ++ (print_ipv6addr n.ipv6_addr
                                                          ++ codes "\n")))
                                            else []))))))))))

unfoldable pub on_opt : Bytes → ℕ → Bytes → Settings → Run Call Settings
on_opt package_version c optarg s =
    if c == b'h'
    then help usage
    else if c == b'b'
    then return (record s { do_block = true; blocked = some optarg })
    else if c == b'u'
    then return (record s { do_unblock = true; blocked = some optarg })
    else version (codes "ifconfig") package_version

unfoldable pub on_bad : ℕ → Run Call (Unit {0})
on_bad optopt =
    if optopt == b'b'
    then complain (codes "ifconfig: " ++ (optopt ∷ codes " needs an argument\n"))
    else complain (codes "ifconfig: " ++ (optopt ∷ codes " is not a valid argument\n"))

module _ (sys : System) where
  -- After the device is opened.
  unfoldable pub set_blocked : Bytes → Bool → ℤ → Run Call (Unit {0})
  set_blocked path actually_block (negsuc n) =
      complain (codes "ifconfig: could not open " ++ (path ++ codes " for blocking\n"))
  set_blocked path actually_block (pos fd) = do
    errno ← ask (config_netinter (pos fd) actually_block) (sys.errno (pos fd) actually_block)
    stop errno

  unfoldable pub configure : Bool → Bytes → Run Call (Unit {0})
  configure actually_block blocked = do
    let path = snprintf 64 (codes "/dev/" ++ blocked)
    fd ← ask (open_interface path) (sys.fd path)
    set_blocked path actually_block fd

  unfoldable pub show_listed : ℤ → List NetInterface → Run Call (Unit {0})
  show_listed ret buffer = do
    when (ret ==ℤ negsuc 0) (stop (pos 1))
    print_array interface_text (pos_part ret) buffer

  unfoldable pub show_all : Run Call (Unit {0})
  show_all = do (ret, buffer) ← ask (listnetinter 10) sys.list; show_listed ret buffer

  -- After the options. `blocked` is set wherever one of the two options was given.
  unfoldable pub run : Settings → Run Call (Unit {0})
  run s =
      if s.do_block || s.do_unblock
      then elim s.blocked [ none ↦ undefined | some name ↦ configure s.do_block name ]
      else (show_all >> stop (pos 0))

  unfoldable pub main : Bytes → List Bytes → Run Call (Unit {0})
  main package_version args = do
    (s, rest) ← while_getopt (on_opt package_version) on_bad (getopt (codes "hb:u:v") args) defaults
    run s
