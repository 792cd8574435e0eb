-- ===== src/Api/Tests.antt =====
-- The router on concrete calls.
use mmperp.Prelude.{ℕ, ◌≡◌, refl, false, some, List, [], ◌∷◌, ◌++◌, arith}
use mmperp.Prelude.Texts.{codes}
use mmperp.Api.{
  ApiRouter, ExpressFeedFrame, new_router, node_status, set_node_state_provider, rpc_result,
  monmouth_node_status, to_hex, to_decimal, digits_on, digit, at_least_one,
}
use mmperp.Api.Numerals.{hex_number, rpc_result-hex_number}
use mmperp.Api.Buffers.{push_frames, latest_of, push_frames-latest_of}

abbrev at_block : ApiRouter
at_block = set_node_state_provider (new_router 2 2) (record {
  chain_id = some 1;
  block_number = some 300;
  peer_connections = some 12;
  healthy = some false;
})

rpc_result-hex_number_example :
    (digits : List ℕ) × (rpc_result at_block (codes "eth_blockNumber") ≡ codes "0x" ++ digits)
    × (hex_number 0 digits ≡ (node_status at_block).block_number)
unfolding set_node_state_provider node_status
rpc_result-hex_number_example = rpc_result-hex_number at_block (omega arith)

status_text :
    monmouth_node_status at_block
    ≡ codes
        "{\"healthy\":false,\"chainId\":\"0x1\",\"blockNumber\":\"0x12c\",\"peerConnections\":12}"
unfolding monmouth_node_status set_node_state_provider node_status to_hex to_decimal digits_on digit
status_text = refl

abbrev frame : ℕ → ExpressFeedFrame
frame n = record { wal_offset = n; payload = [] }

push_frames-latest_of_example :
    (push_frames (new_router 2 5) (frame 1 ∷ frame 2 ∷ frame 3 ∷ [])).express_feed_frames
    ≡ latest_of (at_least_one 2) (frame 1 ∷ frame 2 ∷ frame 3 ∷ [])
push_frames-latest_of_example = push_frames-latest_of 2 5 (frame 1 ∷ frame 2 ∷ frame 3 ∷ [])
