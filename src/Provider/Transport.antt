-- ===== src/Provider/Transport.antt =====
-- model/provider: what the clients of both providers do alike. HTTP and encoding/json are parameters.
use simple_agent_framework.Prelude.{
  ℕ, ltb, leb, Bool, true, false, ◌||◌, ◌==◌, if◌then◌else◌, List, [], ◌∷◌, ◌++◌, Option, none,
  some, drop,
}
use simple_agent_framework.Prelude.Int.{ℤ, pos, negsuc, int_eq}
use simple_agent_framework.Prelude.Text.{Text, codes, is_empty, has_prefix, decimal}
use simple_agent_framework.Errors.{Error, Exec, Result, ok, err, pure, raise}
use simple_agent_framework.Model.Stream.{StreamChunk}
use simple_agent_framework.Model.Value.{Input, end, or_empty}

-- `http.Client.Do` and `io.ReadAll` for a URL, headers and a body: the status, and the body or the
-- error that reading it ends with. `http.NewRequestWithContext` fails on a URL that does not parse.
pub record Transport (W : Type 0) : Type 0 where
  pub parse_url : Text → Option Error
  pub post : Text → List (Text × Text) → Text → Exec W (ℕ × Result Text)

-- A line of a stream, with what `ctx.Err()` is when it has been read.
pub record Line : Type 0 where
  pub text : Text
  pub cancelled : Option Error

-- `fmt.Errorf(prefix + "%w", err)`
abbrev pub wrap : Text → Error → Error
wrap prefix e = Error.wrapping prefix e []

abbrev pub wrapped {ℓ} : {A : Type ℓ} → Text → Result A → Result A
wrapped prefix (ok a) = ok a
wrapped prefix (err e) = err (wrap prefix e)

-- `status < 200 || status >= 300`
abbrev pub is_failure : ℕ → Bool
is_failure status = ltb status 200 || leb 300 status

-- `strings.TrimSuffix(s, "/")`
unfoldable pub trim_slash : Text → Text
trim_slash [] = []
trim_slash (c ∷ []) = if c == b'/' then [] else c ∷ []
trim_slash (c ∷ d ∷ s) = c ∷ trim_slash (d ∷ s)

-- The request, the status check and the read of the body, as both clients do them.
module _ {W : Type 0} (prefix : Text) (t : Transport W) where
  abbrev read_body : ℕ × Result Text → Exec W Text
  read_body (status, err e) = raise (wrap (prefix ++ codes ": read body: ") e)
  read_body (status, ok body) =
      if is_failure status
      then raise
          (Error.other (prefix ++ (codes ": status " ++ (decimal status ++ (codes ": " ++ body)))))
      else pure body

  abbrev posted : Result (ℕ × Result Text) × W → Result Text × W
  posted (err e, w) = (err (wrap (prefix ++ codes ": request: ") e), w)
  posted (ok answer, w) = read_body answer w

  unfoldable pub request : Text → List (Text × Text) → Text → Exec W Text
  request url headers payload = elim (t.parse_url url) [
    | some e ↦ raise e
    | none ↦ λ w. posted (t.post url headers payload w)
  ]

-- `a <= b` of two `int`s.
abbrev pub int_le : ℤ → ℤ → Bool
int_le (pos a) (pos b) = leb a b
int_le (pos a) (negsuc b) = false
int_le (negsuc a) (pos b) = true
int_le (negsuc a) (negsuc b) = leb b a

-- `map[int]*acc` of accumulators by their index.
module _ {A : Type 0} where
  unfoldable pub find_index : ℤ → List (ℤ × A) → Option A
  find_index i [] = none
  find_index i ((j, a) ∷ l) = if int_eq j i then some a else find_index i l

  -- `f` of what stands at the index, or at its end `f` of `fresh`.
  unfoldable pub update_index : ℤ → A → (A → A) → List (ℤ × A) → List (ℤ × A)
  update_index i fresh f [] = (i, f fresh) ∷ []
  update_index i fresh f ((j, a) ∷ l) =
      if int_eq j i then (j, f a) ∷ l else (j, a) ∷ update_index i fresh f l

  unfoldable pub insert_sorted : ℤ × A → List (ℤ × A) → List (ℤ × A)
  insert_sorted x [] = x ∷ []
  insert_sorted x (y ∷ l) =
      let behind = y ∷ insert_sorted x l in if int_le x.0 y.0 then x ∷ y ∷ l else behind

  -- In the order of the indices: the keys, `sort.Ints`, and the values by key.
  unfoldable pub by_index : List (ℤ × A) → List (ℤ × A)
  unfolding insert_sorted
  by_index [] = []
  by_index (x ∷ l) = insert_sorted x (by_index l)

-- `strings.Join(parts, "")`
abbrev pub concat : List Text → Text
concat [] = []
concat (t ∷ ts) = t ++ concat ts

-- The arguments of a call, of which the texts have come in pieces.
unfoldable pub parse_arguments : (Text → Result Input) → Text → Result Input
parse_arguments parse args =
    if is_empty args
    then ok (some end)
    else elim (parse args) [ ok input ↦ ok (or_empty input) | err e ↦ err e ]

-- What a client sends over the two channels: chunks, and at most one error.
pub record Sent : Type 0 where
  pub chunks : List StreamChunk
  pub error : Option Error

-- What a line of a stream is: no data, the end, or the text of an event.
pub data LineKind : Type 0 where
  skipped end_of_stream : LineKind
  payload : Text → LineKind

unfoldable pub line_kind : (Text → Bool) → Text → LineKind
line_kind is_end line =
    if has_prefix line (codes "data: ")
    then (if is_end (drop 6 line) then LineKind.end_of_stream else LineKind.payload (drop 6 line))
    else LineKind.skipped
