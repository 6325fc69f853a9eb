-- ===== src/Examples/FilterRuns.antt =====
-- The filters of src/query/pql.cpp at concrete inputs.
use porla.Base.{
  Option, ℕ, ◌≡◌, ◌≤◌, ◌↔◌, refl, true, false, ◌||◌, List, [], ◌∷◌, none, some, Bytes, codes, ◌==◌,
  if◌then◌else◌, all_of, length,
}
use porla.Query.{
  ◌>>=◌, Span, Oper, Kind, Result, ok, fail, Value, list_of, suggest, require_eq_or_none,
  expected_hex,
}
use porla.Query.Text.{Mode, TextMatcher, matches}
use porla.Query.Depth.{Token, check_depth}
use porla.Query.Shallow.{AreShallow}
use porla.Query.Tree.{OrExpr, or_last, and_last, leaf_expr, build}
use porla.Query.Fields.{StateSet, Context, Field}
use porla.Query.Build.{
  Leaf, Filter, build_query, free_text, build_hash, parse, build_leaf, build_free_text,
}
use porla.Query.Matching.{Fits, matches_iff}
use porla.Query.Suggesting.{Nearest, suggest-Nearest}
use porla.Query.Parsing.{begins_part, is_hash_prefix, build_hash_lem, parse_iff}
use porla.Examples.QueryRuns.{two_flags, whole_numbers, nowhere, unquoted, short_query}

abbrev iso_matcher : TextMatcher
iso_matcher = record { mode = Mode.contains; needle = codes "iso" }

matches_iff_example :
    (matches iso_matcher (codes "Debian.ISO.torrent") ≡ true)
    ↔ Fits iso_matcher (codes "Debian.ISO.torrent")
matches_iff_example = matches_iff iso_matcher (codes "Debian.ISO.torrent")

abbrev some_names : List Bytes
some_names = codes "name" ∷ codes "ratio" ∷ codes "state" ∷ []

suggest-Nearest_example :
    Nearest (codes "ration") some_names 3 (suggest (codes "ration") some_names)
suggest-Nearest_example = suggest-Nearest (codes "ration") some_names

suggested : suggest (codes "ration") some_names ≡ some (codes "ratio")
unfolding suggest porla.Query.nearest porla.Text.Levenshtein.levenshtein
suggested = refl

abbrev numbered_states : StateSet
numbered_states = record {
  Status = ℕ;
  State = ℕ;
  same_state = ◌==◌;
  checking_files = 1;
  downloading_metadata = 2;
  downloading = 3;
  finished = 4;
  seeding = 5;
  checking_resume_data = 7;
}

abbrev torrent : Context whole_numbers two_flags numbered_states
torrent = record {
  status = 0;
  name = codes "Debian";
  info_hashes = record { v1 = some (171 ∷ 205 ∷ 18 ∷ []); v2 = none };
  state = 5;
  flags = (false, true);
  tags = none;
  now = 0;
}

build_hash_lem_example :
    (build_hash whole_numbers two_flags numbered_states Oper.unset nowhere
        (unquoted (codes "0000,ABCD"))
      >>= λ f. ok (f torrent))
    ≡ (require_eq_or_none Oper.unset nowhere >>= λ u.
        if all_of is_hash_prefix (list_of (unquoted (codes "0000,ABCD")))
        then ok (
            begins_part (list_of (unquoted (codes "0000,ABCD"))) torrent.info_hashes.v1
            || begins_part (list_of (unquoted (codes "0000,ABCD"))) torrent.info_hashes.v2)
        else fail expected_hex nowhere)
build_hash_lem_example =
    build_hash_lem whole_numbers two_flags numbered_states Oper.unset nowhere
      (unquoted (codes "0000,ABCD")) torrent

abbrev no_fields : List (Field whole_numbers two_flags numbered_states)
no_fields = []

abbrev short_parser : List Token → Result (Option (OrExpr Leaf))
short_parser tokens =
    ok (some (or_last (and_last (leaf_expr (free_text (unquoted (codes "deb")))))))

abbrev short_filter : Filter whole_numbers two_flags numbered_states
short_filter = build_free_text whole_numbers two_flags numbered_states (unquoted (codes "deb"))

parse_iff_example :
    (parse whole_numbers two_flags numbered_states
        (λ t. none)
        0
        no_fields
        (λ input. ok short_query)
        short_parser
        (codes "(!deb)")
      ≡ ok short_filter)
    ↔ ((length (codes "(!deb)") ≤ 4096)
        × (tokens : List Token) × (ok short_query ≡ ok tokens)
        × AreShallow tokens
        × ((short_parser tokens
              >>= build_query whole_numbers two_flags numbered_states (λ t. none) 0 no_fields)
            ≡ ok short_filter))
parse_iff_example =
    parse_iff whole_numbers two_flags numbered_states (λ t. none) 0 no_fields
      (λ input. ok short_query) short_parser (codes "(!deb)") short_filter

short_query_parsed :
    parse whole_numbers two_flags numbered_states
      (λ t. none)
      0
      no_fields
      (λ input. ok short_query)
      short_parser
      (codes "(!deb)")
    ≡ ok short_filter
unfolding parse check_depth build porla.Query.Tree.build_or porla.Query.Tree.cons_filter build_leaf
    porla.Query.Tree.any_filters porla.Query.Tree.all_filters
short_query_parsed = refl

-- A torrent without a name, as `std::search` sees it.
nothing_in_empty : matches (record { mode = Mode.contains; needle = [] }) [] ≡ false
unfolding matches porla.Query.Text.matches_mode porla.Query.Text.search_text
nothing_in_empty = refl
