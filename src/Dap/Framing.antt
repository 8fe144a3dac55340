-- ===== src/Dap/Framing.antt =====
-- internal/backend/dap/client.go: the frames of the adapter's stream, byte by byte.
use dlvpp.Base.{
  ℕ, zero, suc, ◌≤◌, ◌≡◌, refl, ◌∙◌, Bytes, Bool, true, false, List, [], ◌∷◌, ◌++◌, Option, none,
  some, map, arith, codes, eqb, ◌==◌, ◌||◌, if◌then◌else◌, Lacks, length, atoi, utoa, All-mono,
  All-append, utoa-All, trim_right_while-append, ◌≢◌, cut, cut_found, trim_space-utoa, atoi-utoa,
  append-nil, trim_space, trim_right_while, to_lower, max_int, is_empty, append_assoc,
}
use mathlib.Core.List.{map-append}
use dlvpp.Base.Int.{ℤ, pos, negsuc}
use dlvpp.Base.Fault.{Error, sentinel, text, wrapped, Result, ok, err, eof, wrap_error}

-- What the connection hands to the reader: bytes, and errors such as a deadline; at the end, EOF.
pub data Arrival : Type 0 where
  byte : ℕ → Arrival
  fault : Error → Arrival

-- What one header line does: nothing, set the length, end the header, or fail.
data HeaderStep : Type 0 where
  more : ℤ → HeaderStep
  done : HeaderStep
  broken : Error → HeaderStep

abbrev is_crlf : ℕ → Bool
is_crlf c = (c == 13) || (c == 10)

set_length : Bytes → Option ℤ → HeaderStep
set_length value none =
    broken
      (wrapped (codes "invalid content length " ++ value ++ codes ": ") (text (codes "atoi")) [])
set_length value (some n) = more n

header_field : ℤ → Bytes × Bytes × Bool → HeaderStep
unfolding set_length eqb to_lower
header_field len (key, value, false) = more len
header_field len (key, value, true) =
    if eqb (to_lower (trim_space key)) (codes "content-length")
    then set_length value (atoi (trim_space value))
    else more len

header_line : ℤ → Bytes → HeaderStep
unfolding header_field
header_line len line = if is_empty line then done else header_field len (cut line b':')

-- The test after the loop.
finish_header : ℤ → Result ℕ
finish_header (pos n) = ok n
finish_header (negsuc n) = err (text (codes "missing Content-Length header"))

-- `readContentLength`: the length found so far, the line read so far, what arrives.
pub read_header : ℤ → Bytes → List Arrival → Result ℕ × List Arrival
unfolding header_line finish_header trim_right_while
read_header len line [] = (err (wrap_error (codes "read dap header: ") (sentinel eof)), [])
read_header len line (fault e ∷ rest) = (err (wrap_error (codes "read dap header: ") e), rest)
read_header len line (byte c ∷ rest) = elim (c == 10) [
  | false ↦ read_header len (line ++ c ∷ []) rest
  | true ↦ elim (header_line len (trim_right_while is_crlf (line ++ c ∷ []))) [
    | done ↦ (finish_header len, rest)
    | broken e ↦ (err e, rest)
    | more n ↦ read_header n [] rest
  ]
]

pub read_content_length : List Arrival → Result ℕ × List Arrival
unfolding read_header
read_content_length arrivals = read_header (negsuc 0) [] arrivals

abbrev end_of_payload : Bytes → Error
end_of_payload [] = sentinel eof
end_of_payload (c ∷ s) = text (codes "unexpected EOF")

-- `io.ReadFull`: the bytes still to read, those read.
pub read_full : ℕ → Bytes → List Arrival → Result Bytes × List Arrival
read_full zero got rest = (ok got, rest)
read_full (suc n) got [] = (err (wrap_error (codes "read dap payload: ") (end_of_payload got)), [])
read_full (suc n) got (fault e ∷ rest) = (err (wrap_error (codes "read dap payload: ") e), rest)
read_full (suc n) got (byte c ∷ rest) = read_full n (got ++ c ∷ []) rest

payload_of : Result ℕ × List Arrival → Result Bytes × List Arrival
payload_of (ok n, rest) = read_full n [] rest
payload_of (err e, rest) = (err e, rest)

-- The part of `readMessageLocked` that reads the stream.
pub read_payload : List Arrival → Result Bytes × List Arrival
unfolding payload_of read_content_length read_full
read_payload arrivals = payload_of (read_content_length arrivals)

-- The header that `writeRequestLocked` writes, and the whole frame.
unfoldable pub frame_header : Bytes → Bytes
frame_header payload = codes "Content-Length: " ++ (utoa (length payload) ++ codes "\r\n\r\n")

unfoldable pub write_frame : Bytes → Bytes
unfolding frame_header
write_frame payload = frame_header payload ++ payload

read_header_more :
    (len n : ℤ) (s line : Bytes) (rest : List Arrival)
    → Lacks 10 s
    → header_line len (trim_right_while is_crlf (line ++ (s ++ 10 ∷ []))) ≡ more n
    → read_header len line (map byte s ++ byte 10 ∷ rest) ≡ read_header n [] rest
unfolding read_header
read_header_more len n [] line rest h e = ground arith
read_header_more len n (c ∷ s) line rest (k, h) e = ground (
  arith,
  read_header_more len n s (line ++ c ∷ []) rest h
      (rw (append_assoc line (c ∷ []) (s ++ 10 ∷ [])) e),
)

length_line :
    (n : ℕ)
    → n ≤ max_int
    → header_line (negsuc 0) (codes "Content-Length: " ++ utoa n) ≡ more (pos n)
unfolding header_line
length_line n h =
    rw (cut_found (codes "Content-Length") (32 ∷ utoa n) b':' (omega arith))
      (rw (trim_space-utoa n, atoi-utoa n h) (unfold trim_space in refl))

utoa-Lacks : (n : ℕ) → Lacks 10 (utoa n)
utoa-Lacks n = All-mono (λ c d. λ e. ground arith) (utoa n) (utoa-All n)

-- The line break is cut off the header line.
length_line_trimmed :
    (n : ℕ)
    → trim_right_while is_crlf (codes "Content-Length: " ++ (utoa n ++ 13 ∷ 10 ∷ []))
      ≡ codes "Content-Length: " ++ utoa n
length_line_trimmed n =
    trim_right_while-append is_crlf (codes "Content-Length: " ++ utoa n) (13 ∷ 10 ∷ [])
      (All-append (λ c. is_crlf c ≡ false) (codes "Content-Length: ") (utoa n) (ground arith)
        (All-mono (λ c d. ground arith) (utoa n) (utoa-All n)))
      (refl, (refl, tt))

-- The two header lines that `write_frame` writes.
read_content_length_lem :
    (n : ℕ) (rest : List Arrival)
    → n ≤ max_int
    → read_content_length (
        map byte (codes "Content-Length: " ++ (utoa n ++ 13 ∷ []))
        ++ byte 10 ∷ (map byte (13 ∷ []) ++ byte 10 ∷ rest))
      ≡ (ok n, rest)
unfolding read_content_length
read_content_length_lem n rest h =
    read_header_more (negsuc 0) (pos n) (codes "Content-Length: " ++ (utoa n ++ 13 ∷ [])) [] _
      (All-append (λ c. c ≢ 10) (codes "Content-Length: ") (utoa n ++ 13 ∷ []) (omega arith)
        (All-append (λ c. c ≢ 10) (utoa n) (13 ∷ []) (utoa-Lacks n) (omega arith)))
      (rw (append_assoc (utoa n) (13 ∷ []) (10 ∷ []))
        (rw (length_line_trimmed n) (length_line n h)))
    ∙ refl

read_full-append :
    (s got : Bytes) (rest : List Arrival)
    → read_full (length s) got (map byte s ++ rest) ≡ (ok (got ++ s), rest)
unfolding read_full
read_full-append [] got rest = rw append-nil
read_full-append (c ∷ s) got rest =
    rw (read_full-append s (got ++ c ∷ []) rest, append_assoc got (c ∷ []) s)

-- The frame as its two header lines and the payload.
write_frame-arrivals :
    (payload : Bytes) (rest : List Arrival)
    → map byte (write_frame payload) ++ rest
      ≡ map byte (codes "Content-Length: " ++ (utoa (length payload) ++ 13 ∷ []))
        ++ byte 10 ∷ (map byte (13 ∷ []) ++ byte 10 ∷ (map byte payload ++ rest))
unfolding write_frame
write_frame-arrivals payload rest = simp (map-append, append_assoc)

-- A frame that was written is read as the payload it was written for, and what follows it is left.
pub read_payload-write_frame :
    (payload : Bytes) (rest : List Arrival)
    → length payload ≤ max_int
    → read_payload (map byte (write_frame payload) ++ rest) ≡ (ok payload, rest)
unfolding read_payload
read_payload-write_frame payload rest h =
    rw
      (
        write_frame-arrivals payload rest,
        read_content_length_lem (length payload) (map byte payload ++ rest) h,
      )
      (read_full-append payload [] rest)
