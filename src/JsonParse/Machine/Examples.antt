-- ===== src/JsonParse/Machine/Examples.antt =====
-- Runs of the machine on small inputs.
use telora.Common.{ℕ, ◌≡◌, refl, true, false, some, List, [], ◌∷◌, arith, Result, ok}
use telora.JsonParse.{
  location, error, fail, Kind, l_brace, r_brace, l_bracket, r_bracket, comma, colon, q_start, q_end,
  text, true_word, Span, Token, ScanError, Scanner, Location, RawKind, RawPlan, extra_comma,
  trailing, DataLimits, new, next, check_limit, container_slot, reserve_value, push_node, attach,
  emit,
}
use telora.JsonParse.Strings.{
  append, appended, string_token, string_step, string_loop, read_string, utf8_len,
}
use telora.JsonParse.Machine.{
  skip_comma, trailing_comma, open_frame, scalar, value, close, close_after, set_expect, at_value,
  set_key, at_key, at_colon, at_separator, step, finish, parse_loop, parse,
}
use telora.JsonParse.Machine.Rules.{Ensures}
use telora.JsonParse.Machine.Sound.{Sound, parse-Sound}

abbrev at : ℕ → ℕ → Span
at start end' = record { start = start; end = end' }

abbrev token_at : ℕ → ℕ → Kind → Result Token ScanError
token_at start end' kind = ok (record { kind = kind; span = at start end' })

-- `{"a":[1,,true,]}`
abbrev text_tokens : List (Result Token ScanError)
text_tokens =
    token_at 0 1 l_brace
    ∷ token_at 1 2 q_start
    ∷ token_at 2 3 (text (97 ∷ []))
    ∷ token_at 3 4 q_end
    ∷ token_at 4 5 colon
    ∷ token_at 5 6 l_bracket
    ∷ token_at 6 7 (Kind.number false)
    ∷ token_at 7 8 comma
    ∷ token_at 8 9 comma
    ∷ token_at 9 13 true_word
    ∷ token_at 13 14 comma
    ∷ token_at 14 15 r_bracket
    ∷ token_at 15 16 r_brace
    ∷ []

abbrev scanner : Scanner
scanner = record { answers = text_tokens; offset = 16 }

abbrev small : DataLimits
small = record {
  file_size = 100;
  nodes = 5;
  depth = 3;
  container_size = 3;
  bytes_len = 8;
  string_len = 8;
  payloads_bytes = 20;
}

abbrev place : Span → Location
place span = record { source = 7; span = span }

abbrev expected : RawPlan
expected = record {
  nodes =
      record { kind = RawKind.number (at 6 7) false; location = place (at 6 7) }
      ∷ record { kind = RawKind.bool true; location = place (at 9 13) }
      ∷ record { kind = RawKind.array (0 ∷ 1 ∷ []); location = place (at 5 15) }
      ∷ record {
        kind = RawKind.object (
            (
              record { range = at 2 3; escaped = false },
              record { key_location = place (at 1 4); target = 2 },
            )
            ∷ []);
        location = place (at 0 16);
      }
      ∷ [];
  root = some 3;
  diagnostics =
      record { message = extra_comma; location = place (at 8 9) }
      ∷ record { message = trailing; location = place (at 13 14) }
      ∷ [];
}

-- The run recovers from both commas.
recovered : parse 16 (new 7 scanner small) ≡ ok expected
unfolding parse parse_loop next finish step at_value at_key at_colon at_separator set_key set_expect
    close close_after value scalar open_frame skip_comma trailing_comma reserve_value container_slot
    check_limit emit push_node attach read_string string_loop string_step string_token appended
    append utf8_len new location error fail
recovered = refl

parse-Sound_example : Ensures (Sound small) (parse 16 (new 7 scanner small))
parse-Sound_example = parse-Sound 16 7 scanner small (omega arith) tt (omega arith)
