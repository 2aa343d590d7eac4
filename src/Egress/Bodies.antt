-- ===== src/Egress/Bodies.antt =====
-- internal/adapters/egress/proxy.go and proxy_forward.go: the body of a request, as the limit wraps
-- it and as the attempts read it. The transport, which reads and closes it, is a parameter.
pub mod Limit
use vibewarden.Prelude.{
  ℕ, ◌+◌, ltb, ◌||◌, List, [], ◌∷◌, Bool, Option, none, some, length, take, drop, if◌then◌else◌,
}

-- What a body is read from: the bytes that are left, whether closing it makes its reads fail, as it
-- does for the body of a server's request, and whether that has happened.
pub record Reader : Type 0 where
  pub bytes : List ℕ
  pub closes : Bool
  pub closed : Bool

-- The limited reader has the bytes up to one past the limit.
pub record LimitedBody : Type 0 where
  pub r : Reader
  pub limit : ℕ
  pub read_so_far : ℕ

-- `BodyRef`.
pub data RequestBody : Type 0 where
  no_reader : RequestBody
  plain : Reader → RequestBody
  limited : LimitedBody → RequestBody

pub data ReadError : Type 0 where
  eof read_after_close request_body_too_large : ReadError

-- A Read into n bytes by a reader that gives as many as it has.
unfoldable pub read : ℕ → Reader → Reader × List ℕ × Option ReadError
read n r = if r.closed then (r, [], some read_after_close) else (
  record r { bytes = drop n r.bytes },
  take n r.bytes,
  elim r.bytes [ [] ↦ some eof | b ∷ bytes ↦ none ],
)

unfoldable pub read_limited : ℕ → LimitedBody → LimitedBody × List ℕ × Option ReadError
unfolding read
read_limited n lb =
    let (r', got, e) = read n lb.r in
    let total = lb.read_so_far + length got in
    (
      record lb { r = r'; read_so_far = total },
      got,
      if ltb lb.limit total then some request_body_too_large else e,
    )

-- A body that is limited already does not come: a request passes the limit once.
unfoldable pub limit_body : ℕ → RequestBody → RequestBody
limit_body limit no_reader = no_reader
limit_body limit (plain r) =
    limited
      (record { r = record r { bytes = take (limit + 1) r.bytes }; limit = limit; read_so_far = 0 })
limit_body limit (limited lb) = limited lb

close : Reader → Reader
close r = record r { closed = r.closed || r.closes }

-- The body that an attempt leaves to the next one, when the transport has read n bytes of it and has
-- closed it: the Close of a limited body does nothing.
unfoldable pub after_attempt : ℕ → RequestBody → RequestBody
unfolding read read_limited close
after_attempt n no_reader = no_reader
after_attempt n (plain r) = plain (close (read n r).0)
after_attempt n (limited lb) = limited (read_limited n lb).0
