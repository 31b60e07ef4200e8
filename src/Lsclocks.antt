-- ===== src/Lsclocks.antt =====
-- src/lsclocks.c: `main`.
use util_ironclad.Base.{ℕ, pos, Option, none, some, List, [], ◌∷◌, ◌++◌, ◌==◌, if◌then◌else◌, map}
use util_ironclad.Libc.Text.{Bytes, codes}
use util_ironclad.Libc.Getopt.{getopt}
use util_ironclad.Libc.Format.{dec, pad, wide}
use util_ironclad.Run.{
  Run, Log, stdout, return, stop, put, ask, fail, complain, while_getopt, ◌>>=◌, ◌>>◌,
}
use util_ironclad.Commons.{help, version}

-- The lines that `-h` prints.
unfoldable pub usage : List Bytes
unfolding codes
usage = map codes (
    "Usage: lsclocks [options]" ∷ "" ∷ "Options:" ∷ "-h              Print this help message"
    ∷ "-v              Display version information." ∷ [])

-- `CLOCK_MONOTONIC` and `CLOCK_REALTIME`
pub data Clock : Type 0 where
  monotonic realtime : Clock

-- `struct timespec`, of values that are not negative.
pub record Timespec : Type 0 where
  pub tv_sec : ℕ
  pub tv_nsec : ℕ

pub data Call : Type 0 where
  clock_getres clock_gettime : Clock → Call

-- The replies, `none` where a call fails. `iso_text` is what `strftime(buf, 21, "%FT%TZ", gmtime(&t))`
-- leaves in `buf`.
pub record System : Type 0 where
  pub resolution : Clock → Log Call → Option Timespec
  pub time : Clock → Log Call → Option Timespec
  pub iso_text : ℕ → Bytes

unfoldable pub on_opt : Bytes → ℕ → Bytes → Unit {0} → Run Call (Unit {0})
on_opt package_version c optarg s =
    if c == b'h' then help usage else version (codes "lsclocks") package_version

unfoldable pub on_bad : ℕ → Run Call (Unit {0})
on_bad optopt = complain (codes "lsclocks: " ++ (optopt ∷ codes " is not a valid argument\n"))

unfoldable pub header : Bytes
header =
    wide 10 (codes "NAME")
    ++ (codes " "
        ++ (wide 25 (codes "TIME")
            ++ (codes " "
                ++ (wide 10 (codes "RESOL")
                    ++ (codes " " ++ (wide 20 (codes "ISO 8601") ++ codes "\n"))))))

unfoldable pub row : Bytes → Timespec → Timespec → Bytes → Bytes
row name time res iso =
    wide 10 name
    ++ (codes " "
        ++ (wide 15 (dec time.tv_sec)
            ++ (codes "."
                ++ (pad b'0' 9 (dec time.tv_nsec)
                    ++ (codes " "
                        ++ (wide 8 (dec res.tv_nsec)
                            ++ (codes "ns " ++ (wide 20 iso ++ codes "\n"))))))))

-- What a call filled in, and the message and the end of the program where it failed.
unfoldable pub filled : Bytes → Option Timespec → Run Call Timespec
filled message none = fail message
filled message (some t) = return t

module _ (sys : System) where
  unfoldable pub get_res : Clock → Run Call Timespec
  get_res c =
      ask (clock_getres c) (sys.resolution c)
      >>= filled (codes "lsclocks: could not get clock resolution")

  unfoldable pub get_time : Clock → Run Call Timespec
  get_time c =
      ask (clock_gettime c) (sys.time c) >>= filled (codes "lsclocks: could not get clock time")

  -- After the options. The end of `main` is the status 0.
  unfoldable pub show : Run Call (Unit {0})
  show = do
    mono_res ← get_res monotonic
    real_res ← get_res realtime
    mono_time ← get_time monotonic
    real_time ← get_time realtime
    put (stdout header)
    put (stdout (row (codes "monotonic") mono_time mono_res (sys.iso_text mono_time.tv_sec)))
    put (stdout (row (codes "realtime") real_time real_res (sys.iso_text real_time.tv_sec)))
    stop (pos 0)

  unfoldable pub main : Bytes → List Bytes → Run Call (Unit {0})
  main package_version args = do
    while_getopt (on_opt package_version) on_bad (getopt (codes "hv") args) tt
    show
