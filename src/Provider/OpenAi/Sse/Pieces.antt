-- ===== src/Provider/OpenAi/Sse/Pieces.antt =====
-- How the body of a streamed response is cut into pieces: fprovider/src/adapters/openai/transport.rs.
use Prim.Native.Char.{Char, code}
use Prim.Native.String.append
use text.Mathlib.TextLemmas.{append-nil as text_append-nil, append_assoc as text_append_assoc}
use fiddlesticks.Base.{
  String, Bool, true, false, List, [], ◌∷◌, ◌++◌, map, append_assoc, map-append_assoc, eqb,
  text_append, concat, ◌≡◌, refl, ap, ◌∙◌, sym, fun_ext,
}
use fiddlesticks.Exec.{Result, ok}
use fiddlesticks.Provider.Error.{ProviderError}
use fiddlesticks.Provider.OpenAi.Types.{OpenAiStreamChunk, OpenAiChunkStream}
use fiddlesticks.Provider.OpenAi.Api.{OpenAiApiStreamResponse}
use fiddlesticks.Provider.OpenAi.Sse.{
  add_char, take_lines, SseState, start, going, finished, failed, Outcome, yielded_before,
  handle_lines, handle_line, after_line, after_piece, read_pieces,
}

with_more : List String → List String × String → List String × String
with_more ls (ms, rest) = (ls ++ ms, rest)

-- The two parts of the lines of a text and of a text after it.
lines_of : List String × String → String → List String × String
unfolding with_more
lines_of p b = with_more p.0 (take_lines (text_append p.1 b))

add_char-lines_of :
    (n : Bool) (c : Char) (b : String) (p : List String × String)
    → ((s : String) → take_lines (String.◌∷◌ c s) ≡ add_char n c (take_lines s))
    → add_char n c (lines_of p b) ≡ lines_of (add_char n c p) b
unfolding add_char with_more lines_of
add_char-lines_of true c b (ls, r) step = refl
add_char-lines_of false c b ([], r) step =
    sym (ap take_lines (append.cons c r b) ∙ step (text_append r b))
add_char-lines_of false c b (l ∷ ls, r) step = refl

-- The lines of two texts, one after the other.
take_lines-append : (a b : String) → take_lines (text_append a b) ≡ lines_of (take_lines a) b
unfolding take_lines with_more lines_of
take_lines-append String.[] b = refl
take_lines-append (String.◌∷◌ c a) b =
    ap take_lines (append.cons c a b)
    ∙ ap (add_char (eqb (code c) 10) c) (take_lines-append a b)
    ∙ add_char-lines_of (eqb (code c) 10) c b (take_lines a) (λ s. refl)

add_char-rest :
    (n : Bool) (c : Char) (p : List String × String)
    → ((s : String) → take_lines (String.◌∷◌ c s) ≡ add_char n c (take_lines s))
    → take_lines p.1 ≡ ([], p.1)
    → take_lines (add_char n c p).1 ≡ ([], (add_char n c p).1)
unfolding add_char
add_char-rest true c (ls, r) step h = h
add_char-rest false c ([], r) step h = step r ∙ ap (add_char false c) h
add_char-rest false c (l ∷ ls, r) step h = h

-- What is left in the buffer has no line.
take_lines-rest : (a : String) → take_lines (take_lines a).1 ≡ ([], (take_lines a).1)
unfolding take_lines
take_lines-rest String.[] = refl
take_lines-rest (String.◌∷◌ c a) =
    add_char-rest (eqb (code c) 10) c (take_lines a) (λ s. refl) (take_lines-rest a)

after_line-yielded_before :
    (out : List OpenAiStreamChunk) (o : Outcome) (f : SseState → Outcome)
    → after_line (yielded_before out o) f ≡ yielded_before out (after_line o f)
unfolding after_line
after_line-yielded_before out (more, going st) f =
    ap (λ both. (both, (f st).1)) (append_assoc out more (f st).0)
after_line-yielded_before out (more, finished st) f = refl
after_line-yielded_before out (more, failed e) f = refl

after_line_assoc :
    (o : Outcome) (f g : SseState → Outcome)
    → after_line (after_line o f) g ≡ after_line o (λ st. after_line (f st) g)
unfolding after_line
after_line_assoc (out, going st) f g = after_line-yielded_before out (f st) g
after_line_assoc (out, finished st) f g = refl
after_line_assoc (out, failed e) f g = refl

after_piece-yielded_before :
    (fallback : String) (out : List OpenAiStreamChunk) (o : Outcome)
    (g : SseState → OpenAiChunkStream)
    → after_piece fallback (yielded_before out o) g ≡ map ok out ++ after_piece fallback o g
unfolding after_piece
after_piece-yielded_before fallback out (more, going st) g = map-append_assoc ok out more (g st)
after_piece-yielded_before fallback out (more, finished st) g = map-append_assoc ok out more _
after_piece-yielded_before fallback out (more, failed e) g = map-append_assoc ok out more _

pub after_piece-after_line :
    (fallback : String) (o : Outcome) (f : SseState → Outcome) (g : SseState → OpenAiChunkStream)
    → after_piece fallback (after_line o f) g
      ≡ after_piece fallback o (λ st. after_piece fallback (f st) g)
unfolding after_line after_piece
after_piece-after_line fallback (out, going st) f g =
    after_piece-yielded_before fallback out (f st) g
after_piece-after_line fallback (out, finished st) f g = refl
after_piece-after_line fallback (out, failed e) f g = refl

module _ (from_str : String → Result String OpenAiApiStreamResponse) where
  handle_lines-append :
      (ls ms : List String) (st : SseState)
      → handle_lines from_str (ls ++ ms) st
        ≡ after_line (handle_lines from_str ls st) (handle_lines from_str ms)
  unfolding handle_lines after_line
  handle_lines-append [] ms st = refl
  handle_lines-append (l ∷ ls) ms st =
      ap (after_line (handle_line from_str l st)) (fun_ext (handle_lines-append ls ms))
      ∙ sym (
          after_line_assoc (handle_line from_str l st) (handle_lines from_str ls)
            (handle_lines from_str ms))

  -- Two pieces that come one after the other are read as the one piece they make.
  read_pieces-append :
      (fallback : String) (a b : String) (rest : List (Result ProviderError String))
      (buffer : String) (st : SseState)
      → read_pieces from_str fallback (ok (text_append a b) ∷ rest) buffer st
        ≡ read_pieces from_str fallback (ok a ∷ ok b ∷ rest) buffer st
  unfolding read_pieces lines_of with_more
  read_pieces-append fallback a b rest buffer st =
      let cut = take_lines (text_append buffer a) in
      let more = take_lines (text_append cut.1 b) in
      ap
        (λ p.
          after_piece fallback (handle_lines from_str p.0 st)
            (read_pieces from_str fallback rest p.1))
        (ap take_lines (sym (text_append_assoc buffer a b))
          ∙ take_lines-append (text_append buffer a) b)
      ∙ ap (λ o. after_piece fallback o (read_pieces from_str fallback rest more.1))
          (handle_lines-append cut.0 more.0 st)
      ∙ after_piece-after_line fallback (handle_lines from_str cut.0 st)
          (handle_lines from_str more.0) (read_pieces from_str fallback rest more.1)

  -- A text, however it is cut, where no line is left in the buffer.
  read_pieces-cut :
      (fallback : String) (texts : List String) (rest : List (Result ProviderError String))
      (buffer : String) (st : SseState)
      → take_lines buffer ≡ ([], buffer)
      → read_pieces from_str fallback (ok (concat texts) ∷ rest) buffer st
        ≡ read_pieces from_str fallback (map ok texts ++ rest) buffer st
  unfolding read_pieces handle_lines after_piece
  read_pieces-cut fallback [] rest buffer st none_left =
      ap
        (λ p.
          after_piece fallback (handle_lines from_str p.0 st)
            (read_pieces from_str fallback rest p.1))
        (ap take_lines (text_append-nil buffer) ∙ none_left)
  read_pieces-cut fallback (t ∷ texts) rest buffer st none_left =
      let cut = take_lines (text_append buffer t) in
      read_pieces-append fallback t (concat texts) rest buffer st
      ∙ ap (after_piece fallback (handle_lines from_str cut.0 st)) (
          fun_ext (λ st'.
            read_pieces-cut fallback texts rest cut.1 st' (take_lines-rest (text_append buffer t))))

  -- The chunks of a streamed response do not depend on how the network cuts its text into pieces,
  -- whatever follows: the pieces are read as the one text they make.
  pub read_pieces-concat :
      (fallback : String) (texts : List String) (rest : List (Result ProviderError String))
      → read_pieces from_str fallback (map ok texts ++ rest) "" start
        ≡ read_pieces from_str fallback (ok (concat texts) ∷ rest) "" start
  unfolding take_lines
  read_pieces-concat fallback texts rest = sym (read_pieces-cut fallback texts rest "" start refl)
