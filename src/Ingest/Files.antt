-- ===== src/Ingest/Files.antt =====
-- What a download guarantees, and the files by their hashes.
use mouseion.Prelude.{
  ℕ, ◌+◌, ◌≤◌, ◌≡◌, refl, sym, arith, true, false, Option, none, some, List, [], ◌∷◌, ==_iff, leb,
  Option-cases, Bool-cases, inl, inr, is_empty, length, length-append,
}
use mouseion.Text.{Text, text_eq, text_eq_iff, text_eq_refl}
use mouseion.Effect.{Result, ok, err}
use mouseion.Ingest.{
  Bytes, Library, Failure, raised, cancelled, IngestFault, not_pdf_content, Runtime, Response, Http,
}
use mouseion.Ingest.Fetch.{
  looks_like_pdf, read_chunks, check_body, finish_stream, read_response, download_pdf, find_file,
  write_file, same_size, store_at, digest_or, store_pdf,
}

read_chunks-le :
    (max_bytes total : ℕ) (chunks : List Bytes) (content : Bytes)
    → total ≤ max_bytes
    → read_chunks max_bytes total chunks ≡ some content
    → total + length content ≤ max_bytes
unfolding read_chunks
read_chunks-le max_bytes total [] content le h = ground (arith, h)
read_chunks-le max_bytes total (c ∷ cs) content le h =
    elim (Bool-cases (leb (total + length c) max_bytes)) [
      | inr over ↦ ground (arith, over, h)
      | inl fits ↦ elim (Option-cases (read_chunks max_bytes (total + length c) cs)) [
        | inl e ↦ ground (arith, fits, e, h)
        | inr (rest, e) ↦ ground (
          arith,
          fits,
          e,
          h,
          length-append c rest,
          read_chunks-le max_bytes (total + length c) cs rest,
        )
      ]
    ]

abbrev pub Sound : ℕ → Bytes → Type 0
Sound max_bytes content =
    (length content ≤ max_bytes) × (is_empty content ≡ false) × (looks_like_pdf content ≡ true)

check_body-Sound :
    (max_bytes : ℕ) (address : Text) (read content : Bytes)
    → length read ≤ max_bytes
    → check_body address read ≡ ok content
    → Sound max_bytes content
check_body-Sound max_bytes address read content le h = ground (arith, le, h)

finish_stream-Sound :
    (address : Text) (max_bytes : ℕ) (broken : Option Text) (read : Option Bytes) (content : Bytes)
    → ((r : Bytes) → read ≡ some r → length r ≤ max_bytes)
    → finish_stream address max_bytes broken read ≡ ok content
    → Sound max_bytes content
finish_stream-Sound address max_bytes broken none content le h = cc
finish_stream-Sound address max_bytes (some problem) (some r) content le h = cc
finish_stream-Sound address max_bytes none (some r) content le h =
    check_body-Sound max_bytes address r content (le r refl) h

read_response-Sound :
    (address : Text) (max_bytes : ℕ) (r : Result Failure Response) (content : Bytes)
    → read_response address max_bytes r ≡ ok content
    → Sound max_bytes content
read_response-Sound address max_bytes (err cancelled) content h = cc
read_response-Sound address max_bytes (err (raised problem)) content h = cc
read_response-Sound address max_bytes (ok r) content h = elim (Bool-cases (leb 400 r.status)) [
  | inl bad ↦ ground (arith, bad, h)
  | inr good ↦
      finish_stream-Sound address max_bytes r.broken (read_chunks max_bytes 0 r.chunks) content
        (λ read e. omega (arith, read_chunks-le max_bytes 0 r.chunks read (omega arith) e))
        (rw good at h)
]

-- What `download_pdf` returns is not empty, is no longer than the limit, and starts like a PDF,
-- whatever the server sends.
pub download_pdf-Sound :
    (http : Http) (address : Text) (max_bytes : ℕ) (content : Bytes)
    → download_pdf http address max_bytes ≡ ok content
    → Sound max_bytes content
unfolding download_pdf
download_pdf-Sound http address max_bytes content h =
    read_response-Sound address max_bytes (http.stream address) content h

-- Every file is a PDF, under the hash of its bytes.
abbrev pub Addressed : Runtime → List (Text × Bytes) → Type 0
Addressed rt [] = Unit
Addressed rt ((name, content) ∷ files) =
    ((rt.sha256_bytes content ≡ name) × (looks_like_pdf content ≡ true)) × Addressed rt files

write_file-Addressed :
    (rt : Runtime) (content : Bytes) (files : List (Text × Bytes))
    → looks_like_pdf content ≡ true
    → Addressed rt files
    → Addressed rt (write_file (rt.sha256_bytes content) content files)
write_file-Addressed rt content [] pdf a = ((refl, pdf), tt)
write_file-Addressed rt content ((n, old) ∷ files) pdf (e, a) =
    elim (Bool-cases (text_eq n (rt.sha256_bytes content))) [
      | inl same ↦ rw same ((sym ((text_eq_iff n (rt.sha256_bytes content)).0 same), pdf), a)
      | inr other ↦ rw other (e, write_file-Addressed rt content files pdf a)
    ]

find_file-write_file :
    (name : Text) (content : Bytes) (files : List (Text × Bytes))
    → find_file name (write_file name content files) ≡ some content
find_file-write_file name content [] = rw (text_eq_refl name) refl
find_file-write_file name content ((n, old) ∷ files) =
    ground (arith, text_eq_refl name, find_file-write_file name content files)

-- a hash that the caller gives is that of the bytes
abbrev pub IsHash : Runtime → Bytes → Option Text → Type 0
IsHash rt content none = Unit
IsHash rt content (some sha) = sha ≡ rt.sha256_bytes content

digest_or-hash :
    (rt : Runtime) (content : Bytes) (sha : Option Text)
    → IsHash rt content sha
    → digest_or rt content sha ≡ rt.sha256_bytes content
digest_or-hash rt content none h = refl
digest_or-hash rt content (some sha) h = ground (arith, h)

-- What is returned is the hash of the bytes, and a file of their size is there; bytes that are no PDF
-- are refused, and nothing is written.
abbrev pub Stored : Runtime → Bytes → Library → Result IngestFault Text × Library → Type 0
Stored rt content s (ok digest, s') =
    (digest ≡ rt.sha256_bytes content)
    × (looks_like_pdf content ≡ true)
    × ((file : Bytes) × (find_file digest s'.files ≡ some file) × (length file ≡ length content))
Stored rt content s (err e, s') =
    (e ≡ not_pdf_content) × (looks_like_pdf content ≡ false) × (s' ≡ s)

same_size-file :
    (content : Bytes) (o : Option Bytes)
    → same_size content o ≡ true
    → (file : Bytes) × (o ≡ some file) × (length file ≡ length content)
same_size-file content none h = cc
same_size-file content (some file) h = (file, refl, (==_iff (length file) (length content)).0 h)

store_at-Stored :
    (rt : Runtime) (content : Bytes) (s : Library)
    → looks_like_pdf content ≡ true
    → Addressed rt s.files
    → Addressed rt (store_at (rt.sha256_bytes content) content s).1.files
      × Stored rt content s (store_at (rt.sha256_bytes content) content s)
store_at-Stored rt content s pdf a =
    elim (Bool-cases (same_size content (find_file (rt.sha256_bytes content) s.files))) [
      | inl same ↦ rw same (
        a,
        (refl, pdf, same_size-file content (find_file (rt.sha256_bytes content) s.files) same),
      )
      | inr other ↦ rw other (
        write_file-Addressed rt content s.files pdf a,
        (
          refl,
          pdf,
          (content, find_file-write_file (rt.sha256_bytes content) content s.files, refl),
        ),
      )
    ]

-- `store_pdf`, without a hash or with that of the bytes, keeps it so that every file is a PDF under
-- the hash of its bytes, whether it writes, finds the file there or refuses. Where it returns, it
-- returns the hash of the bytes, which are a PDF, and a file of their size is under it; where it
-- raises, the bytes are no PDF and the library is as before.
pub store_pdf-Addressed :
    (rt : Runtime) (content : Bytes) (sha : Option Text) (s : Library)
    → IsHash rt content sha
    → Addressed rt s.files
    → Addressed rt (store_pdf rt content sha s).1.files
      × Stored rt content s (store_pdf rt content sha s)
unfolding store_pdf
store_pdf-Addressed rt content sha s h a = elim (Bool-cases (looks_like_pdf content)) [
  | inr other ↦ rw (other, store_pdf) (a, (refl, other, refl))
  | inl pdf ↦
      rw (pdf, digest_or-hash rt content sha h, store_pdf) (store_at-Stored rt content s pdf a)
]
