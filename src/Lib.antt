-- ===== src/Lib.antt =====
-- Verification of omniserve-native, a C server that shares one GPU among language, image and
-- speech models. The model covers the parts that decide: who runs, what is resident, what is
-- rented, what is read and what is written.
--
-- - Sched (src/osched.c): the admission scheduler. `osched_acquire_n`, `osched_try_acquire_n` and
--   `osched_release_n` are `acquire`, `try_acquire_n` and `release_n`; each critical section of the
--   mutex is one function, and Sched/System puts them together as a step relation with the callers
--   that wait, run and leave. Sched/Tier is the tier names.
-- - Spec (src/ospec.c): speculative decoding: `ospec_draft` and the governor.
-- - Json (src/ojson.c): the tokenizer `oj_parse`, lookups in its tokens (Json/Lookup), and JSON text
--   (Json/Text). The server's handlers and the brokers read requests through it.
-- - Scale (src/oscale.c): renting of remote instances: `oscale_decide` and the life of a lane.
-- - Capacity (src/ocapacity.c): the controller: `ocapacity_tick` puts the scheduler's snapshot
--   (Sched/Snapshot) and the lanes of Scale together; its stop and its routing.
-- - Frontier (src/ofrontier.c): local or remote: the policy table, read through Json, and the choice.
-- - Lora (src/olora_route.c): which LoRA files a prompt or an edit task is given, by the operator's
--   JSON, read through Json: the keywords and names (Lora/Text) and the pick (Lora/Pick).
-- - Residency (src/oresidency.c): which image models hold their weights on the device:
--   `ores_report_at` with its admission of claims (Residency/Broker).
-- - Vram (src/ovram.c): the broker of device memory among tenants: its set-up and tables
--   (Vram/Setup, Vram/Tables), leases and their charges (Vram/Charges), who waits before whom (Vram/Queue), the calls that ask for memory (Vram/Grant),
--   the other calls (Vram/Ops), and calls that wait (Vram/Wait). Vram/Book is the abstract view, a
--   map from ids to leases, with all calls as a step relation (Vram/Book/Reach).
-- - Breaker (src/breaker.c), Admission (src/admission.c), Wav (src/wavwrap.c), Tune (src/otune.c),
--   Host (src/ohost.c): the circuit breaker, admission of a model by free memory, the WAV header,
--   the device profiles, and page-cache warming.
-- - Prelude: shared names, lists, integers and tests. Floats: C `double` as an interface `DoubleOps`,
--   of which nothing is assumed; Floats/Whole is a model of it in whole numbers for the runs.
--
-- How they interact: a request is read by Json, gets a tier by Sched/Tier, and waits in Sched for its
-- permits; Capacity shows Scale the scheduler's queue per tier and carries out what it decides; the
-- image models report to Residency. Frontier reads the same snapshot to choose between the device
-- and a remote one. Scale compares lane names and Admission model names with the byte
-- comparison of Json/Lookup, which stands for `strcmp`; Vram does so for owners and ids.
--
-- Sizes and fuel: a document is shorter than 2 ^ 31 bytes. `oj_parse` runs on as much fuel as the
-- document has bytes and one more, since each round consumes a byte; `oj_obj_get` on as much as there
-- are tokens, since each round goes on behind the last one; a closing bracket on as much as there
-- are tokens, since a parent stands before its token; the growth of a buffer on 65 doublings, since
-- 64 pass every `size_t`; the chunk loop on its budget, since no request is empty; the digits of a
-- lease id on the number and one more, since each digit divides by ten.
-- Unsigned arithmetic that may wrap (`unsigned` in the breaker and in admission, `uint32_t` in the
-- WAV header, `size_t` in buffer growth) is written out. Event counters do not wrap, and the broker's
-- sums of megabytes, which the code keeps in an `int`, are taken to be exact.
--
-- Not modelled: threads, mutexes and condition variables (a critical section is one step), the
-- clock (its readings are arguments), memory that runs out except where a result says so, status
-- texts, NVML, SQLite, the embedding model that may score LoRA routes, the HTTP server and proxy, the inference backends.
pub mod Admission
pub mod Breaker
pub mod Capacity
pub mod Floats
pub mod Frontier
pub mod Host
pub mod Json
pub mod Lora
pub mod Prelude
pub mod Residency
pub mod Scale
pub mod Sched
pub mod Spec
pub mod Tune
pub mod Vram
pub mod Wav
