-- ===== src/Chat/Sse/Tests.antt =====
-- Two frames, cut between the line ends that part them.
use aivirteach_server.Common.{◌≡◌, refl, [], ◌∷◌}
use aivirteach_server.Common.{split_lines, trim, after_prefix}
use aivirteach_server.Chat.Sse.{
  replace_crlf, cut, drain, feed, raw_frames, parse_frame, parse_sse_stream,
}
use aivirteach_server.Chat.Sse.Chunks.{whole, parse_sse_stream-whole}

two_frames :
    parse_sse_stream ("event: a\ndata: 1\n" ∷ "\ndata: 2\r\ndata: 3\r" ∷ "\n\r\n" ∷ [])
    ≡ record { event = "a"; data_text = "1" }
      ∷ record { event = "message"; data_text = "2\n3" }
      ∷ []
unfolding parse_sse_stream raw_frames feed drain cut replace_crlf parse_frame split_lines trim
    after_prefix
two_frames = refl

parse_sse_stream-whole_example :
    parse_sse_stream ("data: 1\n" ∷ "\ndata: 2\n\n" ∷ [])
    ≡ parse_sse_stream (whole "data: 1\n" ("\ndata: 2\n\n" ∷ []) ∷ [])
parse_sse_stream-whole_example = parse_sse_stream-whole "data: 1\n" ("\ndata: 2\n\n" ∷ []) refl refl
