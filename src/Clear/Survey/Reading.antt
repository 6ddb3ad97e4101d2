-- ===== src/Clear/Survey/Reading.antt =====
-- internal/clear: the survey asks for nothing that `readOnly` refuses.
use aicrme.Prelude.{ℕ, zero, suc, ◌+◌, ◌≡◌, refl, String, List, [], ◌∷◌, ◌++◌, Option, none, some}
use aicrme.Clear.Command.{Result, ok, failed, Exec, run_read_only}
use aicrme.Clear.Universe.{Component, ComponentUniverse}
use aicrme.Clear.Charts.{match_chart}
use aicrme.Clear.Listing.{
  HelmRelease, Formats, helm_page_size, list_page, list_from, list_releases, first_deployed,
  driver_mode, turn_page,
}
use aicrme.Clear.Survey.{
  Found, found_release, take_release, take_releases, survey_of, survey_listed, survey,
}

module _ (formats : Formats) (exec : Exec) where
  list_page-run_read_only :
      (offset : ℕ) → list_page formats (run_read_only exec) offset ≡ list_page formats exec offset
  unfolding list_page run_read_only
  list_page-run_read_only offset = refl

  first_deployed-run_read_only :
      (name namespace : String)
      → first_deployed formats (run_read_only exec) name namespace
        ≡ first_deployed formats exec name namespace
  unfolding first_deployed run_read_only
  first_deployed-run_read_only name namespace = refl

  driver_mode-run_read_only : driver_mode formats (run_read_only exec) ≡ driver_mode formats exec
  unfolding driver_mode run_read_only
  driver_mode-run_read_only = refl

  turn_page-congr :
      (f g : List HelmRelease → Option (Result (List HelmRelease)))
      → ((found : List HelmRelease) → f found ≡ g found)
      → (found : List HelmRelease) (page : Result (List HelmRelease))
      → turn_page f found page ≡ turn_page g found page
  unfolding turn_page
  turn_page-congr f g h found (failed e) = refl
  turn_page-congr f g h found (ok rs) = rw (h (found ++ rs)) refl

  list_from-run_read_only :
      (fuel offset : ℕ) (found : List HelmRelease)
      → list_from formats (run_read_only exec) fuel offset found
        ≡ list_from formats exec fuel offset found
  unfolding list_from
  list_from-run_read_only zero offset found = refl
  list_from-run_read_only (suc fuel) offset found = rw (list_page-run_read_only offset) (
      turn_page-congr (list_from formats (run_read_only exec) fuel (offset + helm_page_size))
        (list_from formats exec fuel (offset + helm_page_size))
        (list_from-run_read_only fuel (offset + helm_page_size)) found
        (list_page formats exec offset))

  take_release-run_read_only :
      (hr : HelmRelease) (m : Option (Component × String)) (found : Found)
      → take_release formats (run_read_only exec) hr m found ≡ take_release formats exec hr m found
  unfolding take_release found_release
  take_release-run_read_only hr none found = refl
  take_release-run_read_only hr (some (comp, version)) found =
      rw (first_deployed-run_read_only hr.name hr.namespace) refl

  take_releases-run_read_only :
      (charts : List (String × Component)) (raw : List HelmRelease) (found : Found)
      → take_releases formats (run_read_only exec) charts raw found
        ≡ take_releases formats exec charts raw found
  unfolding take_releases
  take_releases-run_read_only charts [] found = refl
  take_releases-run_read_only charts (hr ∷ raw) found =
      rw (take_release-run_read_only hr (match_chart hr.chart charts) found) (
        take_releases-run_read_only charts raw
          (take_release formats exec hr (match_chart hr.chart charts) found))

-- A survey through `readOnly` is the survey without it: none of its commands is refused.
pub survey-run_read_only :
    (formats : Formats) (exec : Exec) (fuel : ℕ) (uid : String) (u : Result ComponentUniverse)
    → survey formats (run_read_only exec) fuel uid u ≡ survey formats exec fuel uid u
unfolding survey list_releases survey_listed survey_of
survey-run_read_only formats exec fuel uid (failed e) = refl
survey-run_read_only formats exec fuel uid (ok u) =
    rw (list_from-run_read_only formats exec fuel 0 []) (go (list_from formats exec fuel 0 []))
  where
    go :
        (l : Option (Result (List HelmRelease)))
        → survey_listed formats (run_read_only exec) uid u l ≡ survey_listed formats exec uid u l
    go none = refl
    go (some (failed e)) = refl
    go (some (ok raw)) =
        rw
          (
            take_releases-run_read_only formats exec u.charts raw _,
            driver_mode-run_read_only formats exec,
          )
          refl
