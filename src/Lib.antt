-- ===== src/Lib.antt =====
-- A model of the Venus VA-API driver: a VA-API backend over the stateful V4L2 codecs of the
-- Qualcomm Venus hardware.
--
-- The parts. A client calls VA entry points. src/backend.c negotiates profiles, keeps tables of
-- configurations, contexts, surfaces, buffers and images, and translates errno values.
-- src/capabilities.c says which codecs the probed devices have, behind an allowlist.
-- src/encode.c turns the parameter buffers of a picture into encoder settings, and hands the coded
-- packets that come back to the coded buffers that wait for them in a ring. src/h264_annexb.c
-- rebuilds an H.264 byte stream, with parameter sets, from the parameters of a decoded picture;
-- it writes the sets with src/bit_writer.c. src/decode.c collects the buffers of a picture and stores
-- the frames that come back in surfaces, whose layout and copies src/objects.c has, beside the
-- lifetimes of surfaces, buffers and images. A context that decodes has a decoder of
-- src/v4l2_decoder.c: two queues of mapped buffers, a poll loop and the reaction to a change of the
-- stream.
--
-- The files.
--   VaTypes: the enumerations and structures of libva's headers that the driver reads.
--   BitWriter models src/bit_writer.c. The children say that the bytes refine a list of bits with
--     a sticky overflow (Refines, over Pack), what the Exp-Golomb codes are and that they are read
--     back (Golomb), what a list of fields writes (Fields) and what the RBSP buffers of
--     append_sps and append_pps hold (Rbsp).
--   H264Annexb models src/h264_annexb.c: the byte writer and escaping; Headers, the two parameter
--     sets; AccessUnit, the slices and venus_h264_build_access_unit. Sps and Pps hold readers
--     after the H.264 syntax, against which the writers are stated; Escape, ParameterSets,
--     Framing, Bounds, Refusal and Whole hold what is proved.
--   Capabilities models src/capabilities.c; Allowlist says what is reported.
--   Backend models src/backend_internal.h and src/backend.c: Table, the lookups by ID that the five
--     kinds of objects share; Profiles, the queries; Configs, the configurations; Offers, Asked and
--     Lifetimes, what is proved of them.
--   Encode models src/encode.c: the ring of coded buffers, remove_encode_queue_entry,
--     rollback_coded_buffer, venus_encode_store_packet_locked and store_output_done; Rates, the
--     frame rate, dimensions, native mode, bitrate and QP; Parameters, the three collections of
--     parameter buffers. Ring, Removal, Rollback, Packets, Storage, Limits and Protocol hold what
--     is proved.
--   Objects models the surface layout and the copies of src/objects.c; Geometry and Layout bound
--     them. Surfaces, Buffers and Images are the entry points that create, change, map and destroy
--     these objects; Soundness is what holds of the tables; Allocation, Resizing, Ownership,
--     Showing, Hiding and Marking (for the calls on configurations and contexts) are the lemmas on
--     it for each call, Lifetimes any sequence of the calls in which no context is destroyed;
--     Creation is a call of create_surfaces_locked, and Delivery wait_coded_delivery_locked with
--     what is proved of it.
--   Decode models backend_render_picture, collect_h264_buffers and venus_decode_store_frame_locked of
--     src/decode.c; Contexts, backend_create_context and backend_destroy_context. Pictures, Frames,
--     Targets (the marking of the render targets), Creation and Lifetimes hold what is proved.
--   V4l2Decoder models src/v4l2_decoder.c: Device, the replies of the kernel and the state; Setup,
--     the formats and the mapping of the queues; Queues, dequeue_capture, dequeue_events and the
--     pump; Submission, the search of a free output buffer, venus_v4l2_decoder_open, _submit and
--     _stop; Closing, _close and the counters. Sizes, Outcomes, Safety, SafeSetup, SafePump, Filling, Feeding,
--     Delivery, Submitting, Liveness and Reachable hold what is proved.
--   Common has the shared tests, lists, results, integers and facts on bits.
--
-- State and errors. A structure is a record, an array a list of its length, a pointer to a slot the
-- index of the slot; a function that writes through pointers returns what it wrote. A negative
-- errno is `err`, a VAStatus other than success `va_err`. The functions run under the backend's
-- mutex, so that each is one step, except where a wait releases it. Loops are recursions on the
-- list, or on the number of turns that are left. The loops over ioctls end when the kernel has no
-- more to give: what it has is a finite list, and an empty one answers EAGAIN. The search of a free
-- output buffer takes a list of wakes, which ends in the timeout of poll; that list is the fuel,
-- and any list ends the search. wait_coded_delivery_locked has the 5000 attempts of the code. An
-- ioctl or a poll that is interrupted is made again by the code, and is here the answer at last.
--
-- Numbers are natural numbers, with the wrap-around of a machine word where the code can reach
-- it; where it cannot, a comment at the definition says why.
--
-- Parameters. The layout of libva's structures in a parameter buffer, what `sscanf` reads from a
-- native mode, and the kernel's answers to the synchronisation of a mapping are arguments of the
-- definitions that use them. So are the replies of the V4L2 device (a Device, a Wake per poll),
-- the DMA memory a surface is granted, whether malloc and calloc succeed, and what other threads
-- do to the tables while a wait sleeps.
--
-- Not modelled: in src/decode.c BeginPicture, EndPicture, the synchronisations and the collections
-- of the codecs other than H.264; in src/objects.c GetImage and PutImage, the export of handles,
-- the query of surface attributes, the fences of an access by the CPU, and the branches of
-- backend_map_buffer and backend_destroy_buffer that synchronise the encoder of a coded buffer; in
-- src/v4l2_decoder.c the text of last_operation and of errors; the opening and pumping of the
-- encoder in src/encode.c, src/v4l2_encoder.c, the probe (src/v4l2_probe.c) and
-- src/hevc_annexb.cpp, which are large parts left for later; and what only prints, fills a vtable
-- or answers that it is unimplemented (src/driver.c, src/va_stubs.c).
pub mod Common
pub mod V4l2Decoder
pub mod VaTypes
pub mod BitWriter
pub mod H264Annexb
pub mod Capabilities
pub mod Backend
pub mod Encode
pub mod Objects
pub mod Decode
