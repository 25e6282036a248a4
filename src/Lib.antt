-- ===== src/Lib.antt =====
-- Verification of the C code of the Edge phase data logger firmware: a device that measures,
-- sends what it measures as payloads over CoAP, by a modem or by a mesh of LoRa nodes.
--
-- What is modelled, by file and by the C source that it translates, is the following.
--
-- - Crc16 (src/general/lib/crc/crc16.c): crc16CalcByte with its two tables is calc_byte,
--   crc16CalcBlock is calc_block. Poly compares a byte's step with the polynomial, Detect has
--   what the check finds.
-- - SystemFlags (src/general/lib/system_flags/system_flags.c): the two words of flags under their
--   lock, so that each function is one step.
-- - EdgePayload (src/general/lib/edge_payload/edge_payload.c, src/config/edge_payload_cfg.h):
--   Header, Status, Event, UpdateGet and Monitor are the payloads and their encoders
--   (edgePayloadStatus2Buf is status_to_buf, and so on); Items has the loops that status and
--   event share, Monitor/Bytes what the monitor encoder writes, Monitor/Laws how a monitor
--   payload is built, Decode a receiver.
-- - Coap (src/general/lib/coap/coap_client.c): Send is coapClientSendRequest, Receive is
--   parseOption and coapClientHandleMsg; Send/Request, Receive/Safety and Receive/Roundtrip have
--   what they do.
-- - MeshRoute (app/lora_mesh/mesh_route.c): the map of the nodes of the mesh and the ring of its
--   broadcasts. Live relates the array to the list of the entries in use; Add, Cloud, Clear, Map
--   and Broadcast are about addNode, getCloudNode, clearSubs, nodeMap and isOldBroadcast.
-- - MeshSend (app/lora_mesh/lora_mesh.c): the entries of messages to send and their way to the
--   radio. Slots is about meshSendRequest, Transmit about process_send_queue and OnCadDone with
--   the CRC of Crc16.
-- - MeshReceive (app/lora_mesh/lora_mesh.c): OnRxDone. Packet is about the tests that a packet
--   has to pass, Handlers about the messages by their type, Journey about messages from node to
--   node, Broadcast about broadcasts that come again, NodesMap about the maps that the nodes
--   exchange.
-- - MeshComms (app/lora_mesh/mesh_comms.c): the states in which a device uses the mesh, and the
--   messages that it sends over the routes of MeshRoute with the entries of MeshSend. Cycle is
--   about meshCommsCycle, Send about meshCommsSend.
-- - MeshPayload (app/lora_mesh/mesh_comms.c, app/lora_mesh/mesh_comms.h): the payload of a
--   message and onLoraData, which hands it on; Roundtrip reads what meshCommsSend writes.
-- - CloudMesh (app/lora_mesh/cloud_mesh.c): a node that is connected to the cloud, its children
--   (updateChild is update_child) and the requests that it takes from them
--   (meshCloudHandleRequest is handle_request). Requests is about the array of requests,
--   Reassembly puts the segments of MeshCloud together.
-- - CloudCycle (app/lora_mesh/cloud_mesh.c): the machine that sends these requests to the cloud
--   (cloudMeshCycle is cycle), and what it takes from the cloud and the child. Liveness is about
--   a request without an answer, Response about one with an answer.
-- - MeshCloud (app/lora_mesh/mesh_cloud.c): a node that reports over a parent. The segments of a
--   report are in MeshCloud itself, meshCloudCycle in Reports, meshCloudSync in ParentSync;
--   Segments and Buffers are about the segments, Reports/Inside about the machine.
-- - MeshUpdate (app/lora_mesh/mesh_update.c): the download of the firmware in chunks
--   (processDownload is process_download) and what the node takes from its parent. Request is
--   about the request for a chunk, Download about its answer, Complete about a whole file. Cycle
--   is the machine around it (meshUpdateCycle), Cycle/Restart about its end.
--
-- What the modules share: Prelude (lists indexed by numbers, Boolean tests, failing steps), Bits
-- (the digits of words) and Buffer (a C buffer that is written through a moving pointer).
--
-- How the code is modelled: numbers are ℕ with the wrap-around of their C types written out. A
-- function that may touch memory out of range is into Option, and none is that fault; where a C
-- function also fails by its result, that is a value inside. A struct is a record, an array is a
-- list with its bounds tested, a pointer into a message is a position. Memory that C leaves
-- uninitialised is an argument. Readings of the clock, the node's own id and the handlers that
-- code registers are arguments too.
--
-- The loops are structural, over the array or over the turns left, but for the two that delete
-- what they go over: clear_loop and clean_loop of MeshRoute run on fuel, of which each turn uses
-- one; 480 turns are enough for clear_loop. The cycles of the machines are functions of one step,
-- and run of CloudCycle/Liveness and transfer of MeshUpdate/Complete repeat them, with the
-- answers of the world to each; transfer needs no more rounds than there are bytes.
--
-- What is not modelled: the DTLS client, the C++ applications, the persistent storage and the
-- logs, and of the mesh the start of the radio (loraMeshInit, loraMeshCycle), the sending of the
-- maps (update_route), the commands, and the hash of a file that is downloaded. The queues of
-- FreeRTOS stand by what they answer.
pub mod Prelude
pub mod Bits
pub mod Buffer
pub mod Crc16
pub mod SystemFlags
pub mod EdgePayload
pub mod Coap
pub mod MeshRoute
pub mod MeshSend
pub mod MeshReceive
pub mod MeshComms
pub mod MeshPayload
pub mod CloudMesh
pub mod CloudCycle
pub mod MeshCloud
pub mod MeshUpdate
