-- ===== src/Service/Rendering/Frames.antt =====
-- What goes out on the stream of RenderPage, and what it replies.
use hirame.Prelude.{
  ℕ, zero, suc, ◌<◌, ℤ, Bool, true, false, List, [], ◌∷◌, ◌++◌, ◌≡◌, refl, ap, sym, ◌∙◌, ◌⊎◌, inl,
  inr, Option, none, some, Bytes, map, take, drop, length, append_assoc, append-nil, arith,
  if◌then◌else◌,
}
use hirame.Cache.Render.{
  Code, canceled, Reply, answer, refuse, PageRequest, RenderFailure, render_error,
}
use hirame.Service.ImageSpec.{Format, render_bounds}
use hirame.Service.Documents.{Library, GetDocumentRow, Lookup}
use hirame.Service.Rendering.Checks.{Accepted, Rejected, checked-Verdict}
use hirame.Service.Rendering.{
  RenderPageRequest, Frame, info, chunk, Stream, Script, SourceLookup, current_ref, send, deliver,
  forward, stream_page, render_page, info_frame, ended,
}

-- How a stream of frames that are due comes to its end after `count` of them, from what the sends
-- come to: all were sent, and the renderer ended well or with a failure; the stream refused the
-- next one; or no render slot came free after the first.
pub data Concluded (slot : Bool) (ending : Option RenderFailure) (due : List Frame)
    (refusals : List (Option Code)) (count : ℕ) (reply : Reply (Unit {0})) : Type 0 where
  all_sent :
      count ≡ length due
      → ending ≡ none
      → reply ≡ answer tt
      → Concluded slot ending due refusals count reply
  render_failed :
      (failure : RenderFailure)
      → count ≡ length due
      → ending ≡ some failure
      → reply ≡ refuse (render_error failure)
      → Concluded slot ending due refusals count reply
  send_refused :
      (code : Code) (rest : List (Option Code))
      → count < length due
      → drop count refusals ≡ some code ∷ rest
      → reply ≡ refuse code
      → Concluded slot ending due refusals count reply
  no_slot :
      slot ≡ false
      → count ≡ 1
      → reply ≡ refuse canceled
      → Concluded slot ending due refusals count reply

-- The first `count` of the frames that are due went out, in order, after those before.
pub record Streamed (slot : Bool) (ending : Option RenderFailure) (before due : List Frame)
    (refusals : List (Option Code)) (r : Reply (Unit {0}) × Stream) : Type 0 where
  pub count : ℕ
  pub in_order : r.1.sent ≡ before ++ take count due
  pub concluded : Concluded slot ending due refusals count r.0

abbrev Sent : Frame → Stream → Option Code × Stream → Type 0
Sent f st out =
    ((out.0 ≡ none)
      × (out.1.sent ≡ st.sent ++ f ∷ [])
      × ((n : ℕ) → drop n out.1.refusals ≡ drop (suc n) st.refusals))
    ⊎ ((code : Code) × (out.0 ≡ some code)
        × (out.1.sent ≡ st.sent)
        × (rest : List (Option Code)) × (st.refusals ≡ some code ∷ rest))

drop-nil : (n : ℕ) → drop {A = Option Code} n [] ≡ []
drop-nil zero = refl
drop-nil (suc n) = refl

send-cases : (f : Frame) (st : Stream) → Sent f st (send f st)
unfolding send
send-cases f st = delivered st.refusals
  where
    delivered :
        (rs : List (Option Code))
        → Sent f (record { sent = st.sent; refusals = rs }) (deliver f st.sent rs)
    delivered [] = inl (refl, refl, λ n. drop-nil n)
    delivered (none ∷ rs) = inl (refl, refl, λ n. refl)
    delivered (some code ∷ rs) = inr (code, refl, refl, rs, refl)

module _ (slot : Bool) (ending : Option RenderFailure) where
  -- One frame more before what was streamed.
  Concluded-cons :
      (f : Frame) (due : List Frame) (rs rs' : List (Option Code))
      → ((n : ℕ) → drop n rs' ≡ drop (suc n) rs)
      → (n : ℕ) (reply : Reply (Unit {0})) → Concluded true ending due rs' n reply
      → Concluded slot ending (f ∷ due) rs (suc n) reply
  Concluded-cons f due rs rs' k n reply (all_sent c e a) = all_sent (ap suc c) e a
  Concluded-cons f due rs rs' k n reply (render_failed failure c e a) =
      render_failed failure (ap suc c) e a
  Concluded-cons f due rs rs' k n reply (send_refused code rest c e a) =
      send_refused code rest (omega arith) (sym (k n) ∙ e) a
  Concluded-cons f due rs rs' k n reply (no_slot c e a) = absurd (ground arith)

  Streamed-cons :
      (f : Frame) (due : List Frame) (st out : Stream) (r : Reply (Unit {0}) × Stream)
      → out.sent ≡ st.sent ++ f ∷ []
      → ((n : ℕ) → drop n out.refusals ≡ drop (suc n) st.refusals)
      → Streamed true ending out.sent due out.refusals r
      → Streamed slot ending st.sent (f ∷ due) st.refusals r
  Streamed-cons f due st out r e k s = record {
    count = suc s.count;
    in_order =
        s.in_order
        ∙ ap (λ sent. sent ++ take s.count due) e
        ∙ append_assoc st.sent (f ∷ []) (take s.count due);
    concluded = Concluded-cons f due st.refusals out.refusals k s.count r.0 s.concluded;
  }

  Streamed-refused :
      (f : Frame) (due : List Frame) (st out : Stream) (code : Code) (rest : List (Option Code))
      → out.sent ≡ st.sent
      → st.refusals ≡ some code ∷ rest
      → Streamed slot ending st.sent (f ∷ due) st.refusals (refuse code, out)
  Streamed-refused f due st out code rest e k = record {
    count = zero;
    in_order = e ∙ sym (append-nil st.sent);
    concluded = send_refused code rest (omega arith) k refl;
  }

Streamed-done :
    (ending : Option RenderFailure) (st : Stream)
    → Streamed true ending st.sent [] st.refusals (ended ending, st)
Streamed-done none st = record {
  count = zero;
  in_order = sym (append-nil st.sent);
  concluded = all_sent refl refl refl;
}
Streamed-done (some failure) st = record {
  count = zero;
  in_order = sym (append-nil st.sent);
  concluded = render_failed failure refl refl refl;
}

forward-Streamed :
    (chunks : List Bytes) (ending : Option RenderFailure) (st : Stream)
    → Streamed true ending st.sent (map chunk chunks) st.refusals (forward chunks ending st)
unfolding forward
forward-Streamed [] ending st = Streamed-done ending st
forward-Streamed (body ∷ chunks) ending st = elim (send-cases (chunk body) st) [
  | inl (e, s, k) ↦
      rw (e, forward)
        (Streamed-cons true ending (chunk body) (map chunk chunks) st (send (chunk body) st).1 _ s k
          (forward-Streamed chunks ending (send (chunk body) st).1))
  | inr (code, e, s, rest, k) ↦
      rw (e, forward)
        (Streamed-refused true ending (chunk body) (map chunk chunks) st (send (chunk body) st).1
          code rest s k)
]

module _ (lib : Library) (get_row : ℤ → Lookup) (get_source : ℤ → Option ℕ → SourceLookup)
    (acquired : Bool) (renderer : PageRequest → Script) (req : RenderPageRequest) where
  -- What the renderer does for the request.
  abbrev pub script : Format → Bytes → Script
  script format path = renderer (record {
    source_path = path;
    page = req.page_number;
    format = format.name;
    max_width = (render_bounds req.max_size).width;
    max_height = (render_bounds req.max_size).height;
  })

  -- The info frame and then the slices of the renderer.
  abbrev pub due_frames : GetDocumentRow → Format → Bytes → List Frame
  due_frames row format path =
      info (record {
        ref = current_ref lib row;
        page_number = req.page_number;
        format = format.proto;
        size = render_bounds req.max_size;
      })
      ∷ map chunk (script format path).chunks

  stream_page-Streamed :
      (row : GetDocumentRow) (format : Format) (path : Bytes) (st : Stream)
      → Streamed acquired
          (script format path).ending
          st.sent
          (due_frames row format path)
          st.refusals
          (stream_page lib get_row get_source acquired renderer req row format path st)
  unfolding stream_page
  stream_page-Streamed row format path st = elim (send-cases due_info st) [
    | inl (e, q, k) ↦ rw (e, stream_page) (granted acquired q k)
    | inr (code, e, q, rest, k) ↦
        rw (e, stream_page)
          (Streamed-refused acquired _ due_info _ st (send due_info st).1 code rest q k)
  ]
    where
      due_info : Frame
      due_info = info_frame lib get_row get_source acquired renderer req row format

      due_chunks : List Bytes
      due_chunks = (script format path).chunks

      ends : Option RenderFailure
      ends = (script format path).ending

      out : Stream
      out = (send due_info st).1

      granted :
          (slot : Bool)
          → out.sent ≡ st.sent ++ due_info ∷ []
          → ((n : ℕ) → drop n out.refusals ≡ drop (suc n) st.refusals)
          → Streamed slot ends st.sent
              (due_info ∷ map chunk due_chunks)
              st.refusals
              (if slot then forward due_chunks ends out else (refuse canceled, out))
      granted true q k =
          Streamed-cons true ends due_info (map chunk due_chunks) st out _ q k
            (forward-Streamed due_chunks ends out)
      granted false q k = record { count = 1; in_order = q; concluded = no_slot refl refl refl }

  abbrev pub Rendered : Stream → Reply (Unit {0}) × Stream → Type 0
  Rendered st r =
      ((code : Code) × (r ≡ (refuse code, st))
        × Rejected lib get_row get_source acquired renderer req code)
      ⊎ ((row : GetDocumentRow) × (format : Format) × (path : Bytes) × Accepted lib get_row
            get_source acquired renderer req row format path
          × Streamed acquired (script format path).ending st.sent (due_frames row format path)
              st.refusals r)

  -- RenderPage, whatever was sent before, the renderer does and the sends come to. Either it sends
  -- nothing and replies with a code, and then the reference is not resolved, the page is 0 or past
  -- the pages that the row is known to have, the format is unknown, or there is no source; or the
  -- reference is resolved to a row, the page is at least 1 and not past a known page count, the
  -- format is known and the source was found. Then the info frame and the slices that the renderer
  -- makes of that source are sent in order up to some point: all of them, and the reply is success
  -- exactly where the renderer ended without a failure, else the code of its failure; or the stream
  -- refused the next frame, and the reply is its code; or no slot came free, and after the info
  -- frame the reply is CANCELED.
  pub render_page-Streamed :
      (st : Stream) → Rendered st (render_page lib get_row get_source acquired renderer req st)
  unfolding render_page
  render_page-Streamed st = elim (checked-Verdict lib get_row get_source acquired renderer req) [
    | inl (code, e, why) ↦ inl (code, rw (e, render_page) refl, why)
    | inr (row, format, path, e, a) ↦
        inr (row, format, path, a, rw (e, render_page) (stream_page-Streamed row format path st))
  ]
