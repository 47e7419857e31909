-- ===== src/Server/Ingest/Limits.antt =====
-- The single-shot handler where the parser refuses the body: ingest_single.go.
use metricz_exporter.Base.{
  ℕ, suc, ◌-◌, leb, eqb, length, length-drop, drop, true, false, Bool-cases, codes, List, [], ◌∷◌,
  ◌≡◌, refl, ap, arith, String, inl, inr,
}
use metricz_exporter.Storage.{Time, Storage}
use metricz_exporter.Parser.{ParseError, parsing_failed, mismatch, err}
use metricz_exporter.Config.{Config}
use metricz_exporter.Server.{Stream, Libraries, error_text, respond, too_large, max_bytes_reader}
use metricz_exporter.Server.Ingest.{
  message, eq_codes, contains_body_too_large, is_too_large, reject_single, handle_single_shot,
  parse,
}

-- Equal texts are equally long.
eq_codes-length : (s t : List ℕ) → eq_codes s t ≡ true → length s ≡ length t
unfolding eq_codes
eq_codes-length [] [] h = refl
eq_codes-length (a ∷ as') (b ∷ bs) h = elim (Bool-cases (eqb a b)) [
  | inl e ↦ ap suc (eq_codes-length as' bs (simp (e) at h))
  | inr e ↦ cc h
]
eq_codes-length [] (b ∷ bs) h = cc h
eq_codes-length (a ∷ as') [] h = cc h

-- The last 26 bytes of a text are never the 28 bytes of the reader's error.
contains_body_too_large-false : (s : List ℕ) → contains_body_too_large s ≡ false
unfolding contains_body_too_large
contains_body_too_large-false s =
    let tail = drop (length s - 26) s in
    elim (Bool-cases (leb 26 (length s))) [
      | inl h ↦ elim (Bool-cases (eq_codes tail (codes too_large))) [
        | inl e ↦
            grind (arith, eq_codes-length tail (codes too_large) e, length-drop (length s - 26) s)
        | inr e ↦ rw (h, e)
      ]
      | inr h ↦ rw h
    ]

is_too_large-false : (e : ParseError) → is_too_large e ≡ false
unfolding is_too_large message eq_codes
is_too_large-false (parsing_failed cause) =
    contains_body_too_large-false (message (parsing_failed cause))
is_too_large-false (mismatch name expected got) =
    contains_body_too_large-false (message (mismatch name expected got))

-- If the parser refuses a single-shot upload with an error, the handler changes no state and
-- answers 400 with that error, whatever the error is.
pub handle_single_shot-err :
    (lib : Libraries) (cfg : Config) (now later : Time) (id : String) (body : Stream) (s : Storage)
    (e : ParseError)
    → parse lib cfg (max_bytes_reader cfg.app.ingest.max_body_size body) id ≡ err e
    → handle_single_shot lib cfg now later id body s ≡ (s, respond 400 (error_text e))
unfolding handle_single_shot reject_single
handle_single_shot-err lib cfg now later id body s e h =
    rw (h, handle_single_shot) (rw (is_too_large-false e) refl)
