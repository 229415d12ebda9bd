-- ===== src/Runtime/Strings/Match.antt =====
-- The captures of `luauc_runtime_v1_match_string` lie in the text, so that slicing them never fails.
use luauc.Prelude.{
  ℕ, zero, suc, ◌+◌, ◌-◌, ◌≤◌, ◌<◌, ◌≡◌, ◌≢◌, inl, inr, refl, Bool, true, false, Option, none, some,
  List, [], ◌∷◌, arith, ltb, ◌==◌, if◌then◌else◌, length, take, drop, Bool-cases, Option-cases,
}
use luauc.Runtime.Strings.{
  Value, nil, boolean, number, string, other, Frame, raised, done, write, text_of, live_text,
  valid_range, slice_string,
}
use luauc.Runtime.Strings.Search.{head_passes, find_first}
use luauc.Runtime.Strings.Calls.{
  count_spaces, Captures, split_at_colon, trimmed, match_captures, publish_captures, match_text,
  match_source, match_string,
}

length-drop : (n : ℕ) (text : List ℕ) → length (drop n text) ≡ length text - n
length-drop zero text = omega arith
length-drop (suc n) [] = omega arith
length-drop (suc n) (b ∷ text) = omega (arith, length-drop n text)

find_first-inside :
    (test : List ℕ → Bool) (index : ℕ) (text : List ℕ) (found : ℕ)
    → find_first test index text ≡ some found
    → found < index + length text
unfolding find_first
find_first-inside test index [] found h = cc
find_first-inside test index (b ∷ text) found h =
    ground (arith, find_first-inside test (index + 1) text found)

-- The captures lie in the text, the first one is not reversed, and the second one of form 0 is not empty.
record AreInside (form size : ℕ) (c : Captures) : Type 0 where
  ordered : c.start ≤ c.finish
  first : c.finish ≤ size
  second : form ≡ 0 → c.second_start < size

split_at_colon-AreInside :
    (form : ℕ) (text : List ℕ) (found : Option ℕ) (c : Captures)
    → ((colon : ℕ) → found ≡ some colon → colon < length text)
    → split_at_colon (length text) found ≡ some c
    → AreInside form (length text) c
unfolding split_at_colon
split_at_colon-AreInside form text none c h e = cc
split_at_colon-AreInside form text (some colon) c h e = record {
  ordered = ground arith;
  first = ground (arith, h colon refl);
  second = λ z. ground (arith, h colon refl);
}

module _ (is_space : ℕ → Bool) where
  count_spaces-few :
      (wanted : Bool) (text : List ℕ) → count_spaces is_space wanted text ≤ length text
  unfolding count_spaces
  count_spaces-few wanted [] = omega arith
  count_spaces-few true (b ∷ text) = ground (arith, count_spaces-few true text)
  count_spaces-few false (b ∷ text) = ground (arith, count_spaces-few false text)

  trimmed-few : (text : List ℕ) → trimmed is_space text ≤ length text
  unfolding trimmed
  trimmed-few [] = omega arith
  trimmed-few (b ∷ text) = ground (arith, trimmed-few text)

  match_captures-AreInside :
      (form : ℕ) (text : List ℕ) (c : Captures)
      → match_captures is_space form text ≡ some c
      → AreInside form (length text) c
  unfolding match_captures
  match_captures-AreInside form text c h =
      let spaces = count_spaces is_space true text in
      let few = count_spaces-few true text in
      let leading = count_spaces-few false text in
      let word = count_spaces-few false (drop spaces text) in
      let end = trimmed-few (drop spaces text) in
      let left = length-drop spaces text in
      elim (Bool-cases (form == 0)) [
        | inl e ↦
            split_at_colon-AreInside form text (find_first (head_passes (λ b. b == 58)) 0 text) c
              (λ colon q.
                omega (arith, find_first-inside (head_passes (λ b. b == 58)) 0 text colon q))
              (rw e at h)
        | inr e ↦ record {
          ordered = ground (arith, few, leading, word, end, left);
          first = ground (arith, few, leading, word, end, left);
          second = λ z. absurd (ground (arith, e));
        }
      ]

text_of-some :
    (live : Bool) (value : Value) (text : List ℕ)
    → text_of live value ≡ some text
    → value ≡ string text
text_of-some true (string text') text h = ground arith
text_of-some true nil text h = cc
text_of-some true (boolean b) text h = cc
text_of-some true (number n) text h = cc
text_of-some true other text h = cc
text_of-some false value text h = cc

-- A slice of a live text in a valid range is taken.
slice_done :
    (frame : Frame) (destination source offset length' : ℕ) (text : List ℕ)
    → destination < frame.max_stack_size
    → source < frame.max_stack_size
    → live_text frame source ≡ some text
    → valid_range offset length' (length text) ≡ true
    → slice_string frame destination source offset length'
      ≡ done (record (write frame destination (string (take length' (drop offset text)))) {
        live = frame.ci_top;
      })
unfolding slice_string
slice_done frame destination source offset length' text d s t v = rw (t) (ground (arith, d, s, v))

module _ (frame : Frame) (destination : ℕ) (text : List ℕ)
    (live : live_text frame (destination + 1) ≡ some text)
    (room : destination + 1 < frame.max_stack_size)
    (top : frame.max_stack_size ≤ frame.ci_top) where
  -- The text is still there after a write to the register before it.
  still_live :
      (value : Value)
      → live_text (record (write frame destination value) { live = frame.ci_top }) (destination + 1)
        ≡ some text
  unfolding live_text
  still_live value =
      let held =
        text_of-some (ltb (destination + 1) frame.live) (frame.registers (destination + 1)) text
          live in
      ground (arith, held)

  captured-ne-raised :
      (form result_count : ℕ) (c : Captures)
      → AreInside form (length text) c
      → publish_captures frame destination form result_count text c ≢ raised
  unfolding publish_captures
  captured-ne-raised form result_count c i =
      let size = c.finish - c.start in
      let offset = if size == 0 then 0 else c.start in
      let in_range : valid_range offset size (length text) ≡ true =
        unfold valid_range in ground (arith, i.ordered, i.first) in
      rw
        (slice_done frame destination (destination + 1) offset size text (omega arith) room live
          in_range)
        (elim (Bool-cases (result_count == 2)) [
          | inr e ↦ rw e (λ q. cc)
          | inl e ↦ elim (Bool-cases (form == 0)) [
            | inr z ↦ rw (e, z) (λ q. cc)
            | inl z ↦
                let here : c.second_start < length text = i.second (ground arith) in
                let second_range : valid_range c.second_start (length text - c.second_start)
                      (length text)
                    ≡ true =
                  unfold valid_range in ground (arith, here) in
                rw
                  (
                    e,
                    z,
                    slice_done
                        (record (write frame destination (string (take size (drop offset text)))) {
                          live = frame.ci_top;
                        })
                        (destination + 1) (destination + 1) c.second_start
                        (length text - c.second_start) text room room
                        (still_live (string (take size (drop offset text)))) second_range,
                  )
                  (λ q. cc)
          ]
        ])

module _ (is_space : ℕ → Bool) (frame : Frame) (destination : ℕ)
    (top : frame.max_stack_size ≤ frame.ci_top) where
  matched-ne-raised :
      (form result_count : ℕ) (text : List ℕ)
      → live_text frame (destination + 1) ≡ some text
      → destination + 1 < frame.max_stack_size
      → match_text is_space frame destination form result_count text ≢ raised
  unfolding match_text
  matched-ne-raised form result_count text live room =
      elim (Option-cases (match_captures is_space form text)) [
        | inl e ↦ rw e (ground arith)
        | inr (c, e) ↦ rw e (
            ground (
              arith,
              captured-ne-raised frame destination text live room top form result_count c
                  (match_captures-AreInside is_space form text c e),
            ))
      ]

  source-ne-raised :
      (form result_count : ℕ) (text pattern : Option (List ℕ)) (expected : Value)
      → live_text frame (destination + 1) ≡ text
      → destination + 1 < frame.max_stack_size
      → match_source is_space frame destination form result_count text pattern (some expected)
        ≢ raised
  unfolding match_source
  source-ne-raised form result_count none pattern expected live room = λ q. cc
  source-ne-raised form result_count (some text) none expected live room = λ q. cc
  source-ne-raised form result_count (some text) (some pattern) (string s) live room =
      ground (arith, matched-ne-raised form result_count text live room)
  source-ne-raised form result_count (some text) (some pattern) nil live room = λ q. cc
  source-ne-raised form result_count (some text) (some pattern) (boolean b) live room = λ q. cc
  source-ne-raised form result_count (some text) (some pattern) (number n) live room = λ q. cc
  source-ne-raised form result_count (some text) (some pattern) other live room = λ q. cc

-- In a frame whose registers are all within its limit, matching with a constant of the proto never raises
-- an error: the captures it computes always are ranges that the slices accept, one after the other.
pub match_string-ne-raised :
    (is_space : ℕ → Bool) (constant : ℕ → Option Value) (frame : Frame)
    (destination form pattern_constant result_count : ℕ) (expected : Value)
    → frame.max_stack_size ≤ frame.ci_top
    → constant pattern_constant ≡ some expected
    → match_string is_space constant frame destination form pattern_constant result_count ≢ raised
unfolding match_string
match_string-ne-raised is_space constant frame destination form pattern_constant result_count
      expected top k =
    rw k (
      ground (
        arith,
        λ (room : destination + 1 < frame.max_stack_size).
            source-ne-raised is_space frame destination top form result_count
              (live_text frame (destination + 1)) (live_text frame (destination + 2)) expected refl
              room,
      ))
