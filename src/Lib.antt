-- ===== src/Lib.antt =====
-- The local metrics backend of TTop Desk: a server on a Unix socket that answers one request of
-- one line with one line of JSON. It lists processes and the state of NVIDIA GPUs.
--
-- The parts, and where they are modelled:
-- * backend/ttop_backend/protocol.py is Protocol: `parse_request` from bytes to a `Request`,
--   `handle_request` over the samplers of its caller, `encode_response`. A sampler is a function on
--   the caller's state that returns a dict or raises, so that what a failing one has done to the
--   state is seen. Parsing and Rejections are about requests, Dispatch and Framing about replies.
-- * backend/ttop_backend/processes.py is Processes: Entry has the objects, Normalize has
--   `_finite_nonnegative` and `normalize_process`, Order the two sort keys and
--   `sort_process_entries`, Sampler the class `ProcessSampler`. A process of psutil is a record of
--   what its attributes and calls give or raise, `process_iter` a sequence that ends or raises.
-- * backend/ttop_backend/gpu/base.py is Gpu/Base, and gpu/nvidia.py is Gpu/Nvidia, with its
--   constructor in Gpu/Nvidia/Init and its contract in Gpu/Nvidia/Sessions. The library of NVIDIA
--   is the record `Nvml`: optional functions on a state, each with a return code and what it
--   writes, or an exception. Unsigned integers of C are taken modulo 2^32 and 2^64.
-- * backend/ttop_backend/metrics.py is Metrics: `MetricsCollector` holds the sampler, the provider
--   and the library's state. What one request reads from its surroundings (clocks, processes) is
--   the record `Readings`.
-- * backend/ttop_backend/main.py is Server: `_read_request` over what `recv` gives one call after
--   the other, the checks before and after the socket's path is used, `_serve_client`, and the
--   loop of `serve_forever` as a sequence of turns. Server/Lifetime has the construction of the
--   server, `serve_forever` from its start to its `finally`, and the exit status of `main`; what
--   the operating system answers is the record `Startup`.
-- * scripts/backend-client.py is Client: `request_payload` with its bound on the response, the
--   requests that its `main` builds, and what it prints. Client/Encode has its two calls of
--   `json.dumps`, and Client/Delivery puts it together with `_serve_client` of Server.
-- * tests/visual/compare_png.py is Images: the filters, rows and color types of PNG images, and
--   the comparison of pixels; Images/Chunks has the chunks of a file and the exit status of `main`.
--   Images/Filters has the filters of the PNG standard, as an encoder writes them.
-- * scripts/release_archive.py is Release/Archives: the members that `create_zip` and
--   `create_tar_gz` write, over the paths that `rglob` finds; `main` is in Release/Archives/Script.
--   Release/Paths has what they use of `PurePosixPath`.
-- * scripts/validate-release.py is Release/Archives/Entries (names in archives, and what is read
--   from them) and Release/Validation: Checksums, Dist and Source, with `main` in Source. A
--   directory is the list of its files. `hashlib.sha256` and the opening of archives are
--   parameters.
-- * scripts/check-translations.py is Translations: Catalog has `po_messages`, Sources the search
--   for `ttopTr` calls, Verdict the rest of `main`. `ast.literal_eval`, `str.isalnum` and `repr`
--   are parameters.
-- * Json and Python model what these use of Python: `json.loads` (a lexer and a machine with a
--   stack of open arrays and objects, as deep as the recursion limit; an integer has at most the
--   4300 digits that CPython converts), `json.dumps`, UTF-8 in its strict and its replacing form,
--   `str.strip`, dicts in insertion order, `sorted`, exceptions as values, and conversions between
--   objects and numbers.
--
-- Doubles are a parameter: the record `Runtime` in Python/Runtime names the operations of finite
-- doubles and the few laws that the code relies on (a total order that negation reverses, exact
-- literals, a double near each integer below 2^64). Python/Runtime/Integers is one such runtime,
-- on which the tests evaluate the models.
--
-- Loops run by recursion on their data: the bytes of a request, the processes of one iteration,
-- the devices that the library counts, the chunks of a connection, the turns of the server, the
-- members of an archive, the lines of a file. Only the loop over the chunks of a PNG file runs on
-- fuel, as much as the file has bytes: each turn goes on by at least twelve of them.
-- Texts are lists of code points, bytes are natural numbers.
--
-- Not modelled: logging, argument parsing and signals; failures of `lstat` and `unlink` other than
-- a missing file; the compression of archives, and files that change while they are archived; the
-- messages of exceptions; a RecursionError of `json.dumps`, and its ValueError for an integer of
-- more than 4300 digits, the limit that `json.loads` has here; a standard output that cannot be
-- written; directories whose names the release scripts would read as files; the widget in QML and
-- the bridge in C++. Exceptions that are no subclass of `Exception` (an interrupt) are left out.
pub mod Prelude
pub mod Python
pub mod Json
pub mod Protocol
pub mod Processes
pub mod Gpu
pub mod Metrics
pub mod Server
pub mod Release
pub mod Translations
pub mod Client
pub mod Images
