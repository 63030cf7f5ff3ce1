-- ===== src/Version/Tests.antt =====
-- Versions at concrete inputs.
use myworktree.Prelude.{◌≡◌, ◌↔◌, refl, all_codes, true, false, some}
use myworktree.Git.Text.{parse_int}
use myworktree.Version.{
  split_version, version_less, less_of, core_less, parse_version, is_supported_version,
  hard_version_ok,
}
use myworktree.Version.Ordered.{Lex, Reads, version_less-Lex}

found : parse_version "dsh 0.2.0-rc.2" ≡ some "0.2.0"
unfolding parse_version
found = refl

too_old : hard_version_ok "0.1.9" ≡ false
unfolding hard_version_ok parse_version version_less less_of core_less split_version parse_int
too_old = refl

supported : is_supported_version "0.2.11" ≡ true
unfolding is_supported_version parse_version version_less less_of core_less split_version parse_int
supported = refl

nine : Reads "1.9.0" (1, 9, 0)
unfolding Reads parse_int all_codes
nine = ("1", "9", "0", refl, refl, refl, refl, refl, refl)

ten : Reads "1.10.0" (1, 10, 0)
unfolding Reads parse_int all_codes
ten = ("1", "10", "0", refl, refl, refl, refl, refl, refl)

version_less-Lex_example : (version_less "1.9.0" "1.10.0" ≡ true) ↔ Lex (1, 9, 0) (1, 10, 0)
version_less-Lex_example = version_less-Lex "1.9.0" "1.10.0" (1, 9, 0) (1, 10, 0) nine ten
