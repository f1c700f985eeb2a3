-- ===== src/Agent/Clock/Tests.antt =====
-- Output with a repeated property, white space and a number for a word.
use nouva_agent.Prelude.{
  ◌≡◌, refl, String, true, false, some, List, [], ◌∷◌, inl, inr, trim, to_lower, includes_code, All,
}
use nouva_agent.Agent.Clock.{parse_timedatectl_clock_state, cut_at_equals, value_in}
use nouva_agent.Agent.Clock.Lines.{IsLine, print_lines, value-unassigned, cons-IsNamed}
use nouva_agent.Agent.Clock.Laws.{Says, clock_read}

abbrev ntp_off : String
ntp_off = "NTP=no"

abbrev ntp_on : String
ntp_on = " NTP = TRUE "

abbrev unsynchronized : String
unsynchronized = "NTPSynchronized=0"

abbrev output : List String
output = ntp_off ∷ ntp_on ∷ unsynchronized ∷ []

output-IsLine : All IsLine output
unfolding includes_code
output-IsLine = ((refl, refl), ((refl, refl), ((refl, refl), tt)))

ntp-Says : Says "NTP" (some true) output
unfolding includes_code trim to_lower cut_at_equals value_in
ntp-Says = (
  " TRUE ",
  (
    ntp_off ∷ [],
    ntp_on,
    unsynchronized ∷ [],
    refl,
    (" NTP ", refl, refl, cons-IsNamed " " "NTP ", refl),
    (value-unassigned "NTP" unsynchronized refl, tt),
  ),
  inr (inl refl),
)

synchronized-Says : Says "NTPSynchronized" (some false) output
unfolding includes_code trim to_lower
synchronized-Says = (
  "0",
  (
    ntp_off ∷ ntp_on ∷ [],
    unsynchronized,
    [],
    refl,
    ("NTPSynchronized", refl, refl, cons-IsNamed "N" "TPSynchronized", refl),
    tt,
  ),
  inr (inr refl),
)

clock_read_example :
    parse_timedatectl_clock_state (print_lines true output)
    ≡ some (record { ntp_enabled = some true; synchronized = false })
clock_read_example =
    clock_read true output (some true) (some false) output-IsLine ntp-Says synchronized-Says
