-- ===== src/PacketCodec.antt =====
-- src/libopticon/codec_pkt.c: the meters of a host in a packet. In the decoder `none` is a fault of the
-- memory or a walk without fuel, and `refused` is `return false`; in the encoder, which returns false
-- where a write fails or a type is not known, `none` is that or a fault. The two functions for fractions, which compute with doubles, are parameters.
pub mod Writing
pub mod Values
pub mod Reading
pub mod Loops
pub mod Decoding
pub mod RoundTrip
pub mod Buffer
pub mod Retype
mod Tests
use opticon.Prelude.{
  ℕ, zero, suc, ◌+◌, ◌-◌, Bool, true, false, ◌&&◌, ◌||◌, not, Option, none, some, ◌>>=◌, List, [],
  ◌∷◌, ltb, leb, ◌==◌, if◌then◌else◌, bit_and, bit_or,
}
use opticon.Links.{Ptr, null, Heap, load, set_item}
use opticon.MeterId.{mmask_name, idgetprefix, id2str}
use opticon.Meter.{
  Meter, element, as_words, as_texts, mtype_int, mtype_frac, mtype_str, mmask_type, mmask_count,
  sz_empty_val, sz_empty_array, at_least_one, setcount, set_uint, set_frac, set_str,
  set_empty_array,
}
use opticon.Host.{Host, find_prefix, find_meter_name, get_meter, delete_meter}
use opticon.Ioport.{Methods, IoPort}
use opticon.Ioport.Strings.{write_encstring, read_encstring}
use opticon.Ioport.Uuids.{write_u64, read_u64}
use opticon.Ioport.Encint.{write_encint, read_encint}

-- a write to the meter at an address
pub change : Host → Ptr → (Meter → Option Meter) → Option Host
change h p f = do
  c ← load h.heap p
  m ← f c.item
  heap ← set_item h.heap p m
  some (record h { heap = heap })

-- `NULL` is left alone
pub change_if : Host → Ptr → (Meter → Option Meter) → Option Host
unfolding change
change_if h p f = if p == null then some h else change h p f

abbrev pub retyped : ℕ → Meter → Meter
retyped mid m = record m {
  id = bit_or (bit_and m.id (bit_or mmask_name mmask_count)) (bit_and mid mmask_type);
}

module _ {S : Type 0} (m : Methods S) (shl : ℕ → ℕ)
    (write_encfrac : IoPort S → ℕ → Option (IoPort S)) where
  pub write_value : IoPort S → Meter → ℕ → Option (IoPort S)
  write_value io v pos =
      let type = bit_and v.id mmask_type in
      if type == mtype_int
      then (do ws ← as_words v.d; w ← element ws pos; write_encint m shl io w)
      else if type == mtype_frac
      then (do ws ← as_words v.d; w ← element ws pos; write_encfrac io w)
      else if type == mtype_str
      then (do ts ← as_texts v.d; t ← element ts pos; write_encstring m io t)
      else none

  -- the loop over the values, `n` of them left
  pub write_values : ℕ → IoPort S → Meter → ℕ → Option (IoPort S)
  write_values zero io v pos = some io
  write_values (suc n) io v pos = do io' ← write_value io v pos; write_values n io' v (pos + 1)

  pub encode_meter : IoPort S → Meter → Option (IoPort S)
  encode_meter io v = do
    let cnt = at_least_one v.count
    io' ← write_u64 m io (bit_or v.id v.count)
    if ltb cnt sz_empty_val then write_values cnt io' v 0 else some io'

  pub encode_from : ℕ → IoPort S → Heap Meter → Ptr → Option (IoPort S)
  encode_from zero io heap p = none
  encode_from (suc fuel) io heap p =
      let rest = (do
        c ← load heap p
        io' ← encode_meter io c.item
        encode_from fuel io' heap c.next) in
      if p == null then some io else rest

  -- `pktcodec_encode_host`
  pub encode_host : ℕ → IoPort S → Host → Option (IoPort S)
  encode_host fuel io h = encode_from fuel io h.heap h.meters.first

-- the loop over the children of a meter that was sent as an empty array
pub empty_children : ℕ → ℕ → Host → ℕ → Ptr → Option Host
empty_children zero walk h mid crsr = none
empty_children (suc fuel) walk h mid crsr =
    let rest = (do
      h' ← change h crsr (set_empty_array h.lastmodified)
      next ← find_prefix walk h' mid crsr
      empty_children fuel walk h' mid next) in
    if crsr == null then some h else rest

-- What an empty array does first; the result says whether the round ends there.
pub empty_array : ℕ → Host → ℕ → Option (Bool × Host)
empty_array walk h mid = do
  crsr ← find_prefix walk h mid null
  if not (crsr == null) then (do h' ← empty_children walk walk h mid crsr; some (true, h')) else (do
    named ← find_meter_name walk h mid
    h' ← change_if h named (set_empty_array h.lastmodified)
    some (false, h'))

-- The loop that deletes the meters named like the prefix; `strbuf` gets the name of each.
pub delete_named : ℕ → ℕ → Host → ℕ → Ptr → List ℕ → Option (Host × List ℕ)
delete_named zero walk h pfx crsr strbuf = none
delete_named (suc fuel) walk h pfx crsr strbuf =
    let rest = (do
      c ← load h.heap crsr
      h' ← delete_meter h crsr
      next ← find_meter_name walk h' pfx
      delete_named fuel walk h' pfx next (id2str c.item.id)) in
    if crsr == null then some (h, strbuf) else rest

-- the variables of the loop of `pktcodec_decode_host`
pub record Decoder (S : Type 0) : Type 0 where
  pub io : IoPort S
  pub host : Host
  pub lastpfx : ℕ
  pub strbuf : List ℕ

-- What a part of the decoder comes to: `return false`, or where it goes on from.
pub data Outcome (S : Type 0) : Type 0 where
  refused : Outcome S
  decoded : Decoder S → Outcome S

-- goes on where nothing was refused
abbrev pub go_on : {S : Type 0} → Outcome S → (Decoder S → Option (Outcome S)) → Option (Outcome S)
go_on refused f = some refused
go_on (decoded s) f = f s

module _ {S : Type 0} (m : Methods S) (read_encfrac : IoPort S → ℕ × IoPort S) where
  -- A text that cannot be read leaves the one that was read before.
  abbrev pub text_or : List ℕ → Option (List ℕ) → List ℕ
  text_or strbuf none = strbuf
  text_or strbuf (some text) = text

  -- One value for the meter at `p`, or for none. `walk` bounds the bytes of an integer, too.
  pub read_value : ℕ → Decoder S → ℕ → Ptr → ℕ → Option (Outcome S)
  read_value walk s mid p pos =
      let type = bit_and mid mmask_type in
      let now = s.host.lastmodified in
      let (dval, after_frac) = read_encfrac s.io in
      let (text, after_text) = read_encstring m s.io in
      let strbuf = text_or s.strbuf text in
      if type == mtype_int
      then (do
        (ival, io) ← read_encint m walk s.io
        h ← change_if s.host p (λ v. set_uint now v pos ival)
        some (decoded (record s { io = io; host = h })))
      else if type == mtype_frac
      then (do
        h ← change_if s.host p (λ v. set_frac now v pos dval)
        some (decoded (record s { io = after_frac; host = h })))
      else if type == mtype_str
      then (do
        h ← change_if s.host p (λ v. set_str now v pos strbuf)
        some (decoded (record s { io = after_text; host = h; strbuf = strbuf })))
      else some refused

  pub read_values : ℕ → ℕ → Decoder S → ℕ → Ptr → ℕ → Option (Outcome S)
  read_values walk zero s mid p pos = some (decoded s)
  read_values walk (suc n) s mid p pos = do
    r ← read_value walk s mid p pos
    go_on r (λ s'. read_values walk n s' mid p (pos + 1))

  -- the meters named like the prefix of the id go, once for a run of ids with that prefix
  pub clear_prefix : ℕ → Decoder S → ℕ → Option (Decoder S)
  clear_prefix walk s mid = do
    let pfx = idgetprefix mid
    if not (pfx == 0) && not (pfx == s.lastpfx)
        then (do
          crsr ← find_meter_name walk s.host pfx
          (h, strbuf) ← delete_named walk walk s.host pfx crsr s.strbuf
          some (record s { host = h; lastpfx = pfx; strbuf = strbuf }))
        else some s

  -- The meter for the id: by its name, or a new one at `p` where the host has room.
  pub meter_for : ℕ → ℕ → Ptr → Host → ℕ → Option (Ptr × Host)
  meter_for walk max_meters p h mid = do
    named ← find_meter_name walk h mid
    if not (named == null)
        then some (named, h)
        else if leb h.mcount max_meters
        then get_meter walk h p mid
        else some (null, h)

  -- one round, behind the test for the end
  pub decode_meter : ℕ → ℕ → Ptr → Decoder S → ℕ → Option (Outcome S)
  decode_meter walk max_meters p s mid = do
    let count = bit_and mid mmask_count
    (ends_here, h) ←
        if count == sz_empty_array then empty_array walk s.host mid else some (false, s.host)
    if ends_here then some (decoded (record s { host = h })) else (do
      s1 ← clear_prefix walk (record s { host = h }) mid
      (target, h1) ← meter_for walk max_meters p s1.host mid
      h2 ←
          change_if h1 target (λ v. do v' ← setcount h1.lastmodified v count; some (retyped mid v'))
      let s2 = record s1 { host = h2 }
      if leb sz_empty_val (at_least_one count)
          then some (decoded s2)
          else read_values walk (at_least_one count) s2 mid target 0)

  -- `pktcodec_decode_host`. `places` are what `malloc` would return, one for each round; a decoder
  -- that is given too few is `none`.
  pub decode_host : ℕ → ℕ → List Ptr → Decoder S → Option (Outcome S)
  decode_host walk max_meters [] s = none
  decode_host walk max_meters (p ∷ places) s =
      let (mid, io) = read_u64 m s.io in
      let next = record s { io = io } in
      let rest = (do
        r ← decode_meter walk max_meters p next mid
        go_on r (decode_host walk max_meters places)) in
      if mid == 0 then some (decoded next) else rest
