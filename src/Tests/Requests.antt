-- ===== src/Tests/Requests.antt =====
-- Include values of a request.
use gesetzeswache.Prelude.{◌≡◌, refl, true, false}
use gesetzeswache.Text.{split_on, to_lower, trim_space}
use gesetzeswache.Service.Requests.{parse_include}

tokens : parse_include "Past, proof,x" ≡ record { past = true; linked = false; proof = true }
unfolding parse_include split_on to_lower trim_space
tokens = refl
