-- ===== src/Rpc/Request/Incoming.antt =====
-- What `processIncomingStream` writes and returns.
use go_libvirt.Base.{
  ◌<◌, ◌≡◌, sym, ap, ◌∙◌, Bool, true, false, Option, none, some, List, [], ◌∷◌, ◌++◌, map, arith,
  length, concat, All, append_assoc, append-nil,
}
use go_libvirt.Base.Text.{Bytes}
use go_libvirt.Rpc.Callbacks.{Response}
use go_libvirt.Rpc.Errors.{GoError, interrupted}
use go_libvirt.Rpc.Request.{
  no_response, Reply, Sink, Processed, write_to, write_sink, process_incoming_stream,
}
use go_libvirt.Socket.Packet.{status_ok, status_error, status_continue}

-- A data packet of a stream.
abbrev pub data_response : Bytes → Response
data_response chunk = record { payload = chunk; status = status_continue }

abbrev pub HasData : Bytes → Type 0
HasData chunk = 0 < length chunk

-- The writer after some more data, all of whose writes succeed.
abbrev pub written_on : Sink → Bytes → Sink
written_on k bs = record k { written = k.written ++ bs }

write_to-never :
    (k : Sink) (bs : Bytes) → k.fails ≡ [] → write_to (some k) bs ≡ (none, some (written_on k bs))
unfolding write_to write_sink
write_to-never k bs never = ground arith

-- The loop stops with this reply, having written all the chunks.
abbrev pub stops : Sink → List Bytes → Reply → List Response → Option Processed
stops k chunks reply rest =
    some (record { reply = reply; sink = some (written_on k (concat chunks)); rest = rest })

module _ (decode_error : Bytes → Option GoError) where
  incoming_chunk :
      (chunk : Bytes) (rest : List Response) (closed : Bool) (k : Sink)
      → HasData chunk
      → k.fails ≡ []
      → process_incoming_stream decode_error (data_response chunk ∷ rest) closed (some k)
        ≡ process_incoming_stream decode_error rest closed (some (written_on k chunk))
  unfolding process_incoming_stream
  incoming_chunk chunk rest closed k h never = ground (arith, write_to-never k chunk never)

  -- The loop on the chunks and what follows them.
  abbrev pub incoming : List Bytes → Sink → List Response → Bool → Option Processed
  incoming chunks k rest closed =
      process_incoming_stream decode_error (map data_response chunks ++ rest) closed (some k)

  -- Data packets are written in order, and the loop goes on with what follows them.
  pub incoming_chunks :
      (chunks : List Bytes) (rest : List Response) (closed : Bool) (k : Sink)
      → All HasData chunks
      → k.fails ≡ []
      → process_incoming_stream decode_error (map data_response chunks ++ rest) closed (some k)
        ≡ process_incoming_stream decode_error rest closed (some (written_on k (concat chunks)))
  incoming_chunks [] rest closed k v never =
      ap (λ bs. process_incoming_stream decode_error rest closed (some (record k { written = bs })))
        (sym (append-nil k.written))
  incoming_chunks (c ∷ cs) rest closed k v never =
      incoming_chunk c (map data_response cs ++ rest) closed k v.0 never
      ∙ incoming_chunks cs rest closed (written_on k c) v.1 never
      ∙ ap
          (λ bs.
            process_incoming_stream decode_error rest closed (some (record k { written = bs })))
          (append_assoc k.written c (concat cs))

  -- A stream of data packets ends in one of these ways: the writer has got all the data, in order,
  -- and nothing else, and the caller
  -- * gets no error at a packet "OK", and at an empty packet "continue", which libvirtd sends;
  -- * gets the decoded error at a packet "error";
  -- * is interrupted where the connection is lost;
  -- * waits where no more has arrived.
  pub incoming_stream_lem :
      (chunks : List Bytes) (k : Sink) (rest : List Response) (r : Response) (closed : Bool)
      → All HasData chunks
      → k.fails ≡ []
      → (r.status ≡ status_ok → incoming chunks k (r ∷ rest) closed ≡ stops k chunks (r, none) rest)
        × (r ≡ data_response []
            → incoming chunks k (r ∷ rest) closed ≡ stops k chunks (r, none) rest)
        × ((e : GoError)
            → r.status ≡ status_error
            → decode_error r.payload ≡ some e
            → incoming chunks k (r ∷ rest) closed ≡ stops k chunks (r, some e) rest)
        × (incoming chunks k [] true ≡ stops k chunks (no_response, some interrupted) [])
        × (incoming chunks k [] false ≡ none)
  unfolding process_incoming_stream
  incoming_stream_lem chunks k rest r closed v never = (
    (λ ok. incoming_chunks chunks (r ∷ rest) closed k v never ∙ ground arith),
    (λ e. incoming_chunks chunks (r ∷ rest) closed k v never ∙ rw e),
    (λ e bad found. incoming_chunks chunks (r ∷ rest) closed k v never ∙ ground arith),
    incoming_chunks chunks [] true k v never,
    incoming_chunks chunks [] false k v never,
  )

  -- A packet "error" whose error decodes to nil, as `ERR_OK` does, is not taken for an error: if it
  -- has a payload, this is written to the stream like data, and the loop goes on.
  incoming_error_ok :
      (r : Response) (rest : List Response) (closed : Bool) (k : Sink)
      → r.status ≡ status_error
      → decode_error r.payload ≡ none
      → HasData r.payload
      → k.fails ≡ []
      → process_incoming_stream decode_error (r ∷ rest) closed (some k)
        ≡ process_incoming_stream decode_error rest closed (some (written_on k r.payload))
  unfolding process_incoming_stream
  incoming_error_ok r rest closed k bad nil_error some_data never =
      ground (arith, write_to-never k r.payload never)
