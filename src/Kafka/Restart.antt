-- ===== src/Kafka/Restart.antt =====
-- `shouldRestartOnErr` of kafka.go, the errors that it tells apart, and the topic of a queue.
use Prim.Native.Char.{code}
use i_drac_telemetry_referen.Common.{
  Bool, true, false, ◌||◌, ◌≡◌, Option, none, some, String, ◌==◌, if◌then◌else◌, Bytes,
}
use i_drac_telemetry_referen.Common.Ascii.{to_lower, contains, to_lower-to_lower}
use i_drac_telemetry_referen.Common.Text.{codes}

-- An EOF, a network error that is a timeout, or any other error by its text.
pub data Error : Type 0 where
  eof : Error
  timeout : Bytes → Error
  other : Bytes → Error

abbrev is_broken : Bytes → Bool
is_broken s =
    contains s (codes "use of closed network connection")
    || contains s (codes "broken pipe")
    || contains s (codes "connection reset by peer")
    || contains s (codes "i/o timeout")

unfoldable pub should_restart_on_err : Option Error → Bool
should_restart_on_err none = false
should_restart_on_err (some eof) = true
should_restart_on_err (some (timeout s)) = true
should_restart_on_err (some (other s)) = is_broken (to_lower s)

-- The text of an error counts whatever its case.
pub should_restart-to_lower :
    (s : Bytes)
    → should_restart_on_err (some (other (to_lower s))) ≡ should_restart_on_err (some (other s))
unfolding should_restart_on_err
should_restart-to_lower s = rw to_lower-to_lower

-- `strings.ReplaceAll(queue, "/", "_")`
unfoldable pub replace_slashes : String → String
replace_slashes String.[] = String.[]
replace_slashes (String.◌∷◌ c s) =
    String.◌∷◌ (if code c == b'/' then "_" else c) (replace_slashes s)
