-- ===== src/Frame/Receive.antt =====
-- What becomes of a packet whose length cannot be allocated.
use elephants.Base.{
  ℕ, ◌+◌, ◌-◌, ◌<◌, ◌≡◌, refl, Bool, true, false, none, List, pos, length, ltb, ◌==◌, arith,
}
use elephants.Frame.{
  Attempt, Incoming, got, recv, recv_body, recv_buffer, overwrite, image_of, int_of, calloc_bytes,
  is_complete, from_be,
}

-- The length is in `image`, and no bytes are allocated.
abbrev pub unallocated : List ℕ → Incoming
unallocated image = record { image = image; buffer = none; curr_offset = 4 }

-- The memory of `len` after the last bytes of the length were read, in the order of the host.
abbrev pub image_read : Bool → Incoming → List ℕ → List ℕ
image_read big_endian buff bytes =
    image_of big_endian (from_be (overwrite buff.image buff.curr_offset bytes))

module _ (big_endian : Bool) (calloc : ℕ → Bool) where
  recv_body-unallocated :
      (body : Attempt) (buff : Incoming) (stream : List ℕ)
      → buff.buffer ≡ none
      → buff.curr_offset ≡ 4
      → is_complete 4 (int_of big_endian buff.image) ≡ false
      → recv_body big_endian calloc body buff stream ≡ (pos 0, unallocated buff.image, stream)
  unfolding recv_body
  recv_body-unallocated body buff stream refused four unfinished =
      rw (refused, four, unfinished) refl

  -- A call that reads the rest of a packet's length, of which `calloc` does not give that many
  -- bytes (a negative length it never gives), answers 0, as if the socket would block, and keeps
  -- no bytes for the packet; and every later call answers 0, reads nothing whatever the socket
  -- has, and leaves the packet as it is. A length of 0 is left out.
  pub recv_buffer-stalls :
      (header body : Attempt) (buff : Incoming) (stream bytes rest : List ℕ)
      (later_header later_body : Attempt) (later : List ℕ)
      → buff.curr_offset < 4
      → recv header stream (4 - buff.curr_offset) ≡ got bytes rest
      → buff.curr_offset + length bytes ≡ 4
      → calloc_bytes calloc (int_of big_endian (image_read big_endian buff bytes)) ≡ none
      → is_complete 4 (int_of big_endian (image_read big_endian buff bytes)) ≡ false
      → (recv_buffer big_endian calloc header body buff stream
          ≡ (pos 0, unallocated (image_read big_endian buff bytes), rest))
        × (recv_buffer big_endian calloc later_header later_body
              (unallocated (image_read big_endian buff bytes))
              later
            ≡ (pos 0, unallocated (image_read big_endian buff bytes), later))
  unfolding recv_buffer
  recv_buffer-stalls header body buff stream bytes rest later_header later_body later begun read
        whole refused unfinished =
      let short : ltb buff.curr_offset 4 ≡ true = ground (arith, begun) in
      let four : (buff.curr_offset + length bytes == 4) ≡ true = ground (arith, whole) in
      (
        rw (short, read, four) (recv_body-unallocated body _ rest refused whole unfinished),
        recv_body-unallocated later_body (unallocated (image_read big_endian buff bytes)) later refl
            refl unfinished,
      )
