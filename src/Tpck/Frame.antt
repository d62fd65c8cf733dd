-- ===== src/Tpck/Frame.antt =====
-- How the parser of src/tekmar_482/tpck.py reads one frame, whatever it was doing before.
use tekmar.Prelude.{
  ℕ, ◌+◌, ◌≤◌, ◌<◌, false, ◌≡◌, refl, ap, ◌∙◌, [], ◌∷◌, ◌++◌, append-nil, append_assoc, Bytes,
  AreBytes, length, length-append, ◌==◌, if◌then◌else◌, arith,
}
use tekmar.Tpck.{
  sof, eof, stuffed, stuffed_all, State, wait_sof, in_length, in_type, in_data, in_checksum, in_eof,
  TpckParser, start_frame, advance, feed, feed_many,
}

-- The bytes of a frame with any checksum byte.
unfoldable pub frame : ℕ → Bytes → ℕ → Bytes
frame type payload check =
    sof
    ∷ (stuffed (length payload)
        ++ (stuffed type ++ (stuffed_all payload ++ (stuffed check ++ (eof ∷ [])))))

abbrev Reads : State → Type 0
Reads in_length = Unit
Reads in_type = Unit
Reads in_data = Unit
Reads in_checksum = Unit
Reads _ = ⊥

-- In a state that reads a value, the one or two bytes of that value make one step.
feed_many-stuffed :
    (s : State) (p : TpckParser) (v : ℕ) (rest : Bytes)
    → Reads s
    → p.state ≡ s
    → p.escaped ≡ false
    → v < 256
    → feed_many p (stuffed v ++ rest) ≡ feed_many (advance s p v).0 rest
unfolding feed_many feed stuffed advance
feed_many-stuffed in_length p v rest r m e h = ground arith
feed_many-stuffed in_type p v rest r m e h = ground arith
feed_many-stuffed in_data p v rest r m e h = ground arith
feed_many-stuffed in_checksum p v rest r m e h = ground arith
feed_many-stuffed wait_sof p v rest r m e h = absurd r
feed_many-stuffed in_eof p v rest r m e h = absurd r

-- The loop over the payload: the data state takes bytes until there are as many as announced.
feed_many-stuffed_all :
    (v : ℕ) (xs : Bytes) (p : TpckParser) (rest : Bytes)
    → p.state ≡ in_data
    → p.escaped ≡ false
    → AreBytes (v ∷ xs)
    → length p.payload + length (v ∷ xs) ≡ p.length_byte
    → feed_many p (stuffed_all (v ∷ xs) ++ rest)
      ≡ feed_many (record p { payload = p.payload ++ (v ∷ xs); state = in_checksum }) rest
unfolding advance stuffed_all
feed_many-stuffed_all v [] p rest m e h n = rw append-nil (
    feed_many-stuffed in_data p v rest tt m e h.0
    ∙ ground (arith, length-append p.payload (v ∷ [])))
feed_many-stuffed_all v (w ∷ xs) p rest m e h n =
    let q = record p { payload = p.payload ++ (v ∷ []); state = in_data } in
    rw append_assoc (
      feed_many-stuffed in_data p v (stuffed_all (w ∷ xs) ++ rest) tt m e h.0
      ∙ ap (λ r. feed_many r (stuffed_all (w ∷ xs) ++ rest)) more
      ∙ feed_many-stuffed_all w xs q rest refl e h.1
          (omega (arith, length-append p.payload (v ∷ []), n))
      ∙ rw append_assoc)
  where
    more : (advance in_data p v).0 ≡ record p { payload = p.payload ++ (v ∷ []); state = in_data }
    more = ground (arith, length-append p.payload (v ∷ []))

-- The state of a parser that has read the four parts of a frame up to its EOF.
abbrev pub read_frame : TpckParser → ℕ → Bytes → ℕ → TpckParser
read_frame p type payload check = record p {
  state = in_eof;
  escaped = false;
  length_byte = length payload;
  type_byte = type;
  payload = payload;
  checksum_byte = check;
}

feed_many-payload :
    (payload : Bytes) (p : TpckParser) (rest : Bytes)
    → p.state ≡ (if length payload == 0 then in_checksum else in_data)
    → p.escaped ≡ false
    → p.payload ≡ []
    → AreBytes payload
    → length payload ≡ p.length_byte
    → feed_many p (stuffed_all payload ++ rest)
      ≡ feed_many (record p { payload = payload; state = in_checksum }) rest
unfolding stuffed_all
feed_many-payload [] p rest m e d h n = ground arith
feed_many-payload (v ∷ xs) p rest m e d h n =
    feed_many-stuffed_all v xs p rest (ground arith) e h (ground arith) ∙ ground arith

feed_many-sof :
    (p : TpckParser) (rest : Bytes)
    → p.escaped ≡ false
    → feed_many p (sof ∷ rest) ≡ feed_many (start_frame p) rest
unfolding feed_many feed
feed_many-sof p rest e = ground arith

-- From any state in which no escape is pending, a frame with any checksum byte leads to the state
-- that has read its parts, with its EOF byte and what follows still to read.
pub feed_many-frame :
    (p : TpckParser) (type : ℕ) (payload : Bytes) (check : ℕ) (rest : Bytes)
    → p.escaped ≡ false
    → type < 256
    → length payload ≤ 255
    → AreBytes payload
    → check < 256
    → feed_many p (frame type payload check ++ rest)
      ≡ feed_many (read_frame p type payload check) (eof ∷ rest)
unfolding frame advance
feed_many-frame p type payload check rest e ht hl hb hc =
    let header = record (start_frame p) { state = in_type; length_byte = length payload } in
    let body = record header {
      type_byte = type;
      state = if length payload == 0 then in_checksum else in_data;
    } in
    simp append_assoc (
      feed_many-sof p _ e
      ∙ feed_many-stuffed in_length (start_frame p) (length payload) _ tt refl refl (omega arith)
      ∙ feed_many-stuffed in_type header type _ tt refl refl ht
      ∙ feed_many-payload payload body _ refl refl refl hb refl
      ∙ feed_many-stuffed in_checksum (record body { payload = payload; state = in_checksum }) check
          (eof ∷ rest) tt refl refl hc)
