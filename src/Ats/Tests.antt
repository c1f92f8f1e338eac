-- ===== src/Ats/Tests.antt =====
-- A board with one job, and a company that is looked for by its name.
use ai_career_os.Common.{
  ℕ, ◌≤◌, ◌≡◌, refl, true, false, none, some, [], ◌∷◌, ◌==◌, str_eq, All, length,
}
use ai_career_os.Common.Exec.{ok}
use ai_career_os.Json.{Value, nil, cons, end, field, number, text, array, object}
use ai_career_os.Radar.Model.{RawPosting}
use ai_career_os.Ats.{text_data, response, AtsEnv, AtsSource}
use ai_career_os.Ats.Readable.{Fetched, Probed, all_sources-Fetched}
use ai_career_os.Ats.Resolver.{
  ResolverEnv, ResolvedVia, ResolvedBoard, all_sources, slug_candidates, resolve_board, board_of,
}
use ai_career_os.Ats.Resolver.Slugs.{apart, slug_candidates-apart}
use ai_career_os.Ats.Resolver.Found.{Backed, resolve_board-Backed}

abbrev board : Value ℕ
board = object (
    field "jobs"
      (array (
        cons
          (object (
            field "id" (number 7)
              (field "title" (text "Engineer") (field "content" (text "Builds engines") end))))
          nil))
      end)

abbrev small_web : AtsEnv ℕ
small_web = record {
  http_get = λ link. response 200 (some board);
  re_group = λ pattern' s. none;
  re_found = λ pattern' s. false;
  re_sub = λ pattern repl s. s;
  parse_html = λ html. ok (text_data html ∷ []);
  unescape = λ s. ok s;
  parse_iso = λ s. none;
  is_positive = λ n. true;
  from_epoch_ms = λ n. some n;
  one = 1;
  is_zero = λ n. n == 0;
  str_other = λ v. "7";
  json_text = λ v. "?";
  lower = λ s. s;
}

all_sources-Fetched_example :
    All
      (λ source. Fetched small_web (source.fetch "acme") × Probed (source.probe "acme"))
      (all_sources small_web)
all_sources-Fetched_example = all_sources-Fetched small_web "acme" (λ link. refl)

abbrev role : RawPosting
role = record {
  external_id = "7";
  title = "Engineer";
  description = "Builds engines";
  url = none;
  location = none;
  remote_flag = false;
  posted_at = none;
  raw_payload = [];
}

-- it has a board for one token
abbrev one_board : AtsSource
one_board = record {
  provider = "greenhouse";
  matches_url = λ link. none;
  board_url = λ token. token;
  probe = λ token. ok (str_eq token "acme");
  fetch = λ token. ok (role ∷ []);
}

abbrev names : ResolverEnv
names = record {
  sources = one_board ∷ [];
  drop_suffixes = λ s. s;
  sub_non_slug = λ replacement s. s;
  strip_dashes = λ s. s;
  is_host = λ s. false;
  casefold = λ s. s;
  split = λ s. s ∷ [];
  display_name = λ s. s;
  web_search = λ query n. ok [];
}

slug_candidates-apart_example :
    (apart (slug_candidates names "acme") ≡ true) × (length (slug_candidates names "acme") ≤ 3)
slug_candidates-apart_example = slug_candidates-apart names "acme"

abbrev acme : ResolvedBoard
acme = board_of "acme" one_board "acme" ResolvedVia.probe 1

acme_found : resolve_board names "acme" ≡ ok acme
unfolding resolve_board
acme_found = refl

resolve_board-Backed_example : Backed (one_board ∷ []) acme
resolve_board-Backed_example = resolve_board-Backed names "acme" acme acme_found
