-- ===== src/Ats/Html.antt =====
-- The text of HTML: `_PasteHTMLParser`, `_collapse_whitespace` and `html_to_text` of
-- app/services/job_paste_parser.py.
use ai_career_os.Common.{
  ℕ, zero, suc, ◌+◌, String, Bool, List, [], ◌∷◌, ◌++◌, str_eq, if◌then◌else◌, any,
}
use ai_career_os.Common.Text.{strip, join}
use ai_career_os.Common.Exec.{Result, ok, err}
use ai_career_os.Ats.{AtsEnv, HtmlEvent, start_tag, end_tag, text_data}

abbrev pub strip_tags : List String
strip_tags = "script" ∷ "style" ∷ "noscript" ∷ "svg" ∷ "header" ∷ "footer" ∷ "nav" ∷ []

-- the tags whose end starts a new line
abbrev pub block_tags : List String
block_tags = "p" ∷ "div" ∷ "li" ∷ "h1" ∷ "h2" ∷ "h3" ∷ "h4" ∷ "tr" ∷ []

pub record PasteHtmlParser : Type 0 where
  pub skip_depth : ℕ
  pub chunks : List String

abbrev pub is_tag_of : List String → String → Bool
is_tag_of tags tag = any (λ name. str_eq name tag) tags

abbrev pub append_chunk : String → PasteHtmlParser → PasteHtmlParser
append_chunk chunk parser = record parser { chunks = parser.chunks ++ chunk ∷ [] }

-- a method that does nothing within a skipped tag
abbrev pub unless_skipped : ℕ → PasteHtmlParser → PasteHtmlParser → PasteHtmlParser
unless_skipped zero changed parser = changed
unless_skipped (suc depth) changed parser = parser

abbrev pub with_depth : ℕ → PasteHtmlParser → PasteHtmlParser
with_depth depth parser = record parser { skip_depth = depth }

-- `self._skip_depth -= 1`, unless it is zero
abbrev pub leave_tag : ℕ → PasteHtmlParser → PasteHtmlParser
leave_tag zero parser = parser
leave_tag (suc depth) parser = with_depth depth parser

unfoldable pub handle_starttag : String → PasteHtmlParser → PasteHtmlParser
handle_starttag tag parser =
    if is_tag_of strip_tags tag
    then with_depth (parser.skip_depth + 1) parser
    else unless_skipped parser.skip_depth
        (if is_tag_of ("br" ∷ block_tags) tag then append_chunk "\n" parser else parser) parser

unfoldable pub handle_endtag : String → PasteHtmlParser → PasteHtmlParser
handle_endtag tag parser =
    if is_tag_of strip_tags tag
    then leave_tag parser.skip_depth parser
    else unless_skipped parser.skip_depth
        (if is_tag_of block_tags tag then append_chunk "\n" parser else parser) parser

unfoldable pub handle_data : String → PasteHtmlParser → PasteHtmlParser
unfolding strip
handle_data text parser =
    unless_skipped parser.skip_depth
      (if str_eq (strip text) ""
        then parser
        else append_chunk " " (append_chunk (strip text) parser))
      parser

unfoldable pub handle_event : HtmlEvent → PasteHtmlParser → PasteHtmlParser
unfolding handle_starttag handle_endtag handle_data
handle_event (start_tag tag) = handle_starttag tag
handle_event (end_tag tag) = handle_endtag tag
handle_event (text_data text) = handle_data text

unfoldable pub handle_events : List HtmlEvent → PasteHtmlParser → PasteHtmlParser
unfolding handle_event
handle_events [] parser = parser
handle_events (event ∷ events) parser = handle_events events (handle_event event parser)

module _ {F : Type 0} (env : AtsEnv F) where
  open env use {re_sub, parse_html, unescape}

  unfoldable pub collapse_whitespace : String → String
  unfolding strip
  collapse_whitespace text =
      strip (re_sub "[ \\t]{2,}" " " (re_sub "\\n{3,}" "\n\n" (re_sub "[ \\t]+\\n" "\n" text)))

  abbrev pub collapsed : Result String → Result String
  collapsed (err e) = err e
  collapsed (ok text) = ok (collapse_whitespace text)

  -- the parser, once it has been fed
  abbrev pub get_text : PasteHtmlParser → Result String
  get_text parser = unescape (join "" parser.chunks)

  abbrev pub text_of_events : Result (List HtmlEvent) → Result String
  text_of_events (err e) = err e
  text_of_events (ok events) =
      collapsed (get_text (handle_events events (record { skip_depth = 0; chunks = [] })))

  unfoldable pub html_to_text : String → Result String
  unfolding collapse_whitespace handle_events
  html_to_text html = text_of_events (parse_html html)
