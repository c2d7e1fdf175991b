-- ===== src/Http/Examples.antt =====
-- The theorems on http/ at a small request.
use tiny_network_library.Base.{
  ◌+◌, ◌≡◌, refl, arith, [], ◌∷◌, ◌++◌, true, some, length, Bytes, codes, List, false,
}
use tiny_network_library.Buffer.{Buffer, contents}
use tiny_network_library.Buffer.Bounds.{IsValid}
use tiny_network_library.Http.Request.{get, http11, is_space, method_string}
use tiny_network_library.Http.Context.{init, parse_request}
use tiny_network_library.Http.Response.{Response, append_to_buffer}
use tiny_network_library.Http.Response.Plain.{append_to_buffer-plain_text}
use tiny_network_library.Http.Server.{default_http_callback, on_message}
use tiny_network_library.Connection.{Connection, accepted}
use tiny_network_library.Connection
use tiny_network_library.Http.Context.Steps.{Returns, parse_request-Returns}
use tiny_network_library.Buffer.{append}
use tiny_network_library.Http.Context.Text.{view, parse_text, view-parse_request}
use tiny_network_library.Http.Context.Chunks.{resumed, view-parse_request-append}
use tiny_network_library.Http.Split.{on_message_forgets}
use tiny_network_library.Http.Context.Whole.{
  Header, Complete, store_headers, parse_request-Complete,
}

-- "GET /?x HTTP/1.1", one header, an empty line and one more byte, behind the prepend area.
abbrev sample_head : Bytes
sample_head = codes "GET /?x HTTP/1.1"

abbrev sample_text : Bytes
sample_text = sample_head ++ (13 ∷ 10 ∷ (codes "A: b" ++ (13 ∷ 10 ∷ 13 ∷ 10 ∷ 33 ∷ [])))

abbrev sample : Buffer
sample = record {
  bytes = 0 ∷ 0 ∷ 0 ∷ 0 ∷ 0 ∷ 0 ∷ 0 ∷ 0 ∷ sample_text;
  reader_index = 8;
  writer_index = 8 + length sample_text;
}

abbrev sample_headers : List Header
sample_headers = (codes "A", codes "b") ∷ []

sample-IsValid : IsValid sample
sample-IsValid = omega arith

parse_request-Returns_example : Returns (length (contents sample)) (parse_request 7 init sample)
unfolding init
parse_request-Returns_example = parse_request-Returns 7 init tt sample-IsValid

parse_request-Complete_example :
    Complete
      (store_headers sample_headers (record {
        method = get;
        version = http11;
        path = 47 ∷ [];
        query = codes "?x";
        receive_time = 7;
        headers = [];
      }))
      (33 ∷ [])
      (parse_request 7 init sample)
unfolding contents method_string is_space
parse_request-Complete_example =
    parse_request-Complete get (47 ∷ []) (some (120 ∷ [])) http11 sample_headers (33 ∷ []) 7
      sample-IsValid
      (record {
        method_known = λ e. cc;
        version_known = λ e. cc;
        path_space = omega arith;
        path_question = omega arith;
        path_return = omega arith;
        query_space = omega arith;
        query_return = omega arith;
      })
      ((omega arith, omega arith, omega arith, (refl, refl)), tt) refl

abbrev not_found : Response
not_found = record {
  status_code = 404;
  status_message = codes "Not Found";
  close_connection = true;
  headers = (codes "A", codes "b") ∷ [];
  body = codes "x";
}

abbrev kept_open : Response
kept_open = record not_found { close_connection = false }

append_to_buffer-plain_text_example :
    (contents (append_to_buffer kept_open sample)
      ≡ contents sample
        ++ codes
            "HTTP/1.1 404 Not Found\r\nContent-Length: 1\r\nConnection: Keep-Alive\r\nA: b\r\n\r\nx")
    × IsValid (append_to_buffer kept_open sample)
append_to_buffer-plain_text_example =
    append_to_buffer-plain_text kept_open sample-IsValid (omega arith) (omega arith) (omega arith)

abbrev sample_connection : Connection
sample_connection = record (Connection.new 5) { input = sample }

view-parse_request_example :
    view (parse_request 7 init sample) ≡ parse_text 7 init (contents sample)
view-parse_request_example = view-parse_request 7 init sample-IsValid

-- The text breaks off within the header line.
abbrev first_part : Buffer
first_part = record sample { writer_index = 8 + 20 }

first_part-IsValid : IsValid first_part
first_part-IsValid = omega arith

view-parse_request-append_example :
    view (parse_request 7 init (append (98 ∷ 13 ∷ 10 ∷ 13 ∷ 10 ∷ []) first_part))
    ≡ resumed 7 (98 ∷ 13 ∷ 10 ∷ 13 ∷ 10 ∷ []) (view (parse_request 7 init first_part))
unfolding init
view-parse_request-append_example =
    view-parse_request-append 7 init (98 ∷ 13 ∷ 10 ∷ 13 ∷ 10 ∷ []) tt first_part-IsValid
      (omega arith)

-- The request line and its line end.
abbrev line_alone : Buffer
line_alone = record sample { writer_index = 8 + 18 }

line_alone-IsValid : IsValid line_alone
line_alone-IsValid = omega arith

on_message_forgets_example :
    (b : Buffer) × (on_message default_http_callback
        (accepted 9)
        7
        (record (Connection.new 5) { input = line_alone })
      ≡ some (record (Connection.new 5) { input = b }, []))
    × (contents b ≡ [])
unfolding contents method_string
on_message_forgets_example =
    on_message_forgets default_http_callback (accepted 9) get (47 ∷ []) (some (120 ∷ [])) http11 []
      7 (record (Connection.new 5) { input = line_alone }) line_alone-IsValid
      (record {
        method_known = λ e. cc;
        version_known = λ e. cc;
        path_space = omega arith;
        path_question = omega arith;
        path_return = omega arith;
        query_space = omega arith;
        query_return = omega arith;
      })
      tt refl
