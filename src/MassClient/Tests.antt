-- ===== src/MassClient/Tests.antt =====
-- The theorems on dial targets at concrete URLs.
use mass_worker_llama_cpp.Prelude.{◌≡◌, refl, true, text, ◌++◌, if◌then◌else◌}
use mass_worker_llama_cpp.MassClient.{
  parse_url, drop_prefix, any_url, host_of, before_cut, after_at, last_at, without_user,
}
use mass_worker_llama_cpp.MassClient.Target.{is_plain, parse_url_plain, parse_url_round_trip}

parse_url_plain_example : is_plain (parse_url (text "https://u:p@hub:443/x?y")).target ≡ true
parse_url_plain_example = parse_url_plain (text "https://u:p@hub:443/x?y")

parse_url_round_trip_example :
    parse_url ((if true then text "https://" else text "http://") ++ text "hub:443")
    ≡ record { target = text "hub:443"; use_tls = true }
unfolding text
parse_url_round_trip_example = parse_url_round_trip (text "hub:443") true refl

-- The parts that a target cannot express are dropped.
parse_url_test : (parse_url (text "https://u:p@hub:443/x?y")).target ≡ text "hub:443"
unfolding parse_url any_url drop_prefix host_of before_cut after_at last_at without_user text
parse_url_test = refl
