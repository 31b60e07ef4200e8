-- ===== src/Tests/Logger.antt =====
-- A message of two words that src/logger.c sends.
use util_ironclad.Base.{pos, [], ◌∷◌, ◌≡◌, refl, arith, All}
use util_ironclad.Libc.Text.{Bytes, codes, str_eq}
use util_ironclad.Run.{exit, call}
use util_ironclad.Logger.{openlog, syslog, closelog, main}
use util_ironclad.Logger.Laws.{IsPlain, unwords, logger_sends}

abbrev disk : Bytes
disk = b'd' ∷ b'i' ∷ b's' ∷ b'k' ∷ []

abbrev full : Bytes
full = b'f' ∷ b'u' ∷ b'l' ∷ b'l' ∷ []

both-IsPlain : All IsPlain (disk ∷ full ∷ [])
unfolding str_eq codes
both-IsPlain = ((refl, refl), ((refl, refl), tt))

sends_example :
    main [] (disk ∷ full ∷ []) []
    ≡ (exit (pos 0), call openlog ∷ call (syslog (unwords disk (full ∷ []))) ∷ call closelog ∷ [])
sends_example = logger_sends [] disk (full ∷ []) both-IsPlain (omega arith)
