-- ===== src/Helpers/Published.antt =====
-- What the version lookups (helpers/helpers.go) make of a text that the release site publishes.
use text.Mathlib.TextLemmas.{cons-append, nil-append}
use azk.Base.{String, true, false, ◌<>◌, ◌∷◌, ◌≡◌, refl, ap, ◌∙◌}
use azk.Api.{ok}
use azk.World.{Env, Log, returned, http_get}
use azk.Std.{is_space, trim_left, trim_right, trim_space}
use azk.Helpers.Versions.{is_channel, release_url, published, get_kubernetes_version}

-- No letter of the text is white space.
abbrev pub Unspaced : String → Type 0
Unspaced String.[] = Unit
Unspaced (String.◌∷◌ c s) = (is_space c ≡ false) × Unspaced s

trim_right-line : (s : String) → Unspaced s → trim_right (s <> "\n") ≡ s
unfolding trim_right
trim_right-line String.[] h = refl
trim_right-line (String.◌∷◌ c s) (solid, rest) =
    rw (cons-append c s "\n", trim_right-line s rest, solid)

trim_left-Unspaced : (s : String) → Unspaced s → trim_left s ≡ s
unfolding trim_left
trim_left-Unspaced String.[] h = refl
trim_left-Unspaced (String.◌∷◌ c s) (solid, rest) = rw solid

trim_space-line : (s : String) → Unspaced s → trim_space (s <> "\n") ≡ s
unfolding trim_space
trim_space-line s h = ap trim_left (trim_right-line s h) ∙ trim_left-Unspaced s h

-- For a channel whose file holds a version as the site writes it, after the letter v and before a
-- line break, the lookup returns that version, after this one request.
pub get_kubernetes_version_channel :
    (env : Env) (channel version : String) (log : Log)
    → is_channel channel ≡ true
    → Unspaced version
    → env.answer log (http_get (release_url channel)) ≡ ok (ok ("v" <> version <> "\n"))
    → get_kubernetes_version env channel log
      ≡ (returned version, http_get (release_url channel) ∷ log)
unfolding get_kubernetes_version published
get_kubernetes_version_channel env channel version log h solid answer = rw (
  h,
  answer,
  cons-append "v" "" (version <> "\n"),
  nil-append (version <> "\n"),
  trim_space-line version solid,
)
