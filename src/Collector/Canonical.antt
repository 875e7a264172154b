-- ===== src/Collector/Canonical.antt =====
-- apps/api/app/instagram/collector/canonical.py. `urlsplit` is a parameter: nothing where it or the
-- reading of the port raises ValueError.
use offline_reels.Base.{
  ℕ, Bool, true, false, ◌&&◌, ◌||◌, ◌==◌, Option, none, some, String, List, [], ◌∷◌, leb, length,
  codes, followed_by, if◌then◌else◌, nat_eq, string_eq,
}
use offline_reels.Pipeline.Persistence.{ReelCandidate}

abbrev shortcode_char : ℕ → Bool
shortcode_char c =
    leb 65 c && leb c 90 || leb 97 c && leb c 122 || leb 48 c && leb c 57 || c == 95 || c == 45

all_shortcode_chars : List ℕ → Bool
all_shortcode_chars [] = true
all_shortcode_chars (c ∷ cs) = shortcode_char c && all_shortcode_chars cs

-- SHORTCODE.fullmatch, `^[A-Za-z0-9_-]{1,64}$`
unfoldable pub is_shortcode : String → Bool
unfolding all_shortcode_chars
is_shortcode s =
    leb 1 (length (codes s)) && leb (length (codes s)) 64 && all_shortcode_chars (codes s)

pub record SplitUrl : Type 0 where
  pub scheme : String
  pub hostname : Option String
  pub port : Option ℕ
  pub username : Option String
  pub password : Option String
  pub query : String
  pub fragment : String
  pub path : String

abbrev is_none : {A : Type 0} → Option A → Bool
is_none none = true
is_none (some a) = false

unfoldable pub is_reel_url : SplitUrl → String → Bool
is_reel_url url shortcode =
    url.scheme == "https"
    && elim url.hostname [ none ↦ false | some h ↦ h == "www.instagram.com" ]
    && is_none url.port
    && is_none url.username
    && is_none url.password
    && url.query == ""
    && url.fragment == ""
    && url.path == followed_by "/reel/" (followed_by shortcode "/")

-- Does `validate_candidate` return, or does it raise InvalidReelCandidate?
unfoldable pub is_valid_candidate : (String → Option SplitUrl) → ReelCandidate → Bool
unfolding is_shortcode is_reel_url
is_valid_candidate urlsplit candidate =
    is_shortcode candidate.shortcode && elim (urlsplit candidate.canonical_url) [
      | none ↦ false
      | some url ↦ is_reel_url url candidate.shortcode
    ]

-- The key of a source, or nothing where `source_object_key` raises InvalidReelCandidate.
unfoldable pub source_object_key : String → Option String
unfolding is_shortcode
source_object_key shortcode =
    if is_shortcode shortcode
    then some (followed_by "instagram-sources/" (followed_by shortcode ".mp4"))
    else none
