-- ===== src/Lib.antt =====
-- A model of myworktree, a server that runs terminal and web instances in git worktrees.
--
-- The daemon keeps its state, the worktrees and the instances, in one JSON file. `store` reads it
-- and replaces it under a version check; `framework.Manager` edits it from several goroutines,
-- starts instances through the registered kinds, and gives each a ring buffer for its output;
-- clients follow that output over the frames of `ws`, and catch up with it by a handshake when they
-- reconnect. `worktree.Manager` makes, adopts and deletes worktrees through git and keeps their
-- records in the same file. The portal signs browsers in, and withAuth guards the server that is
-- reached from the network. An instance of dsh-web is a web server of its own, to which a bridge
-- relays a web socket as an event stream.
--
-- Files, with the code that each is about:
--   Prelude             tests on numbers, lists, signed integers, maps, text, filepath
--   Store               internal/store/state.go: State and its records
--   Store/File          FileStore: Load is `load`, Save is `save`, SaveWithVersion is
--                       `save_with_version`. A disk holds the state file and its temporary file, and
--                       every system call may fail.
--   Store/Interface     what framework.Manager relies on (InstanceStore), with its laws
--   Framework/RingBuffer  internal/framework/ringbuffer.go, one function for each method
--   Framework/Status    internal/framework/status.go
--   Framework/Sizing    internal/framework/memsampler.go: AdaptiveCap, ResolveCap
--   Framework/Commit    the retry loops of updateStore and persistNewInstance (manager.go)
--   Framework/Kind      internal/framework/kind.go: the contract of the kinds and their registry
--   Framework/Manager   internal/framework/manager.go and methods.go: Edits has the changes that the
--                       operations make to the state, Buffers the accounts of buffers and connections,
--                       Prepare and Start have Start, Records the other operations (Delete, Restart,
--                       ReconcileRunningOnStartup), Logs the reads of the output, and Lifecycle the
--                       goroutines: runLifecycle, Stop and the publishers are the steps of `Step`
--   Tag                 internal/tag/tag.go: LoadMerged is `load_merged`
--   Pty                 internal/instance/pty/driver.go: ReadLogs; FanOut has SubscribeOutput, broadcast,
--                       the drain and the cancels
--   Ws                  internal/ws/ws.go: readFrame is `read_frame`, writeFrame is `write_frame`;
--                       Conn has ReadMessage
--   Portal/Csrf         internal/portal/portal.go: csrfState, with Steps for runs of its operations
--   Portal/Auth         the same file: checkAuth, extractToken, getIP and the sign-in handlers
--   Git                 internal/gitx: Branches has branches.go and remotes.go, Diverged diverged.go
--   Dsh/Events          internal/instance/dsh_web/bridge.go: what the bridge writes to the browser
--   Dsh/Bridge          internal/instance/dsh_web/bridge.go: serveDownlink, serveUplink and close;
--                       a close and an uplink are two steps each, and Uplinks has what an uplink reaches
--   Dsh/Auth            internal/instance/dsh_web/auth.go, and dial of bridge.go
--   Dsh/Sessions        internal/instance/dsh_web/sessionwatch.go
--   Opencode/Scope      internal/instance/opencode_web/scope.go, with the part of proxy.go that records, and
--                       handleInstanceOpencodeScope of internal/app/app.go
--   Version             version.go of internal/instance/dsh_web and opencode_web
--   Worktree/Porcelain  internal/worktree/worktree.go: the summary of git status
--   Worktree/Names      the same file: parseBranchSpec, slugify, the loop for a free name
--   Worktree/Manager    the same file and gitlist.go: ListUnmanaged and Import; Create has
--                       CreateWithOptionsCtx, Delete has Delete
--   App/Handshake       internal/app/app.go: completeHandshake of the terminal's web socket; Wire
--                       has what is asked of the log, and Rings shows it of a ring buffer
--   App/Access          internal/app/app.go: withAuth, handleLogin and the limit of attempts
--   App/Diff            internal/app/app.go: unquoteGitPath and parseGitDiffNumStat
--   App/Preview         internal/app/app.go: handleWorktreeFileContent and handleWorktreeFileDiff
--   App/Ports           internal/app/app.go: resolveRepoListenAddr and what it calls; server.json
--   App/Stream          internal/app/app.go: handleInstanceLogStream
--   App/Tty             internal/app/app.go: the size of a terminal that several viewers share
--
-- Bounds and fuel. An update makes at most three attempts, which is the bound of the code. Reading
-- a message takes fuel; a frame takes two bytes at least, so fuel above the length of the input is
-- enough. The loop for a free branch name takes fuel for the numbers it tries; fuel up to the first
-- number whose branch does not exist is enough. A replay takes fuel of two rounds more than its
-- budget has bytes, since each round but one writes a byte. Counters of bytes written (int64) are
-- natural numbers.
--
-- What is not modelled. encoding/json is a parameter, a codec that decodes what it has encoded; so
-- is the conversion of a size to float64. Locks are taken as given: a method that holds one is one
-- step. Git, the file system under a worktree and the branch-naming model are calls on a world. A
-- status line and a diff are bytes, and strings.TrimSpace on them is read on ASCII white space. A kind is a
-- parameter of the manager: its calls act on the world. The ids that newID draws and the time are
-- arguments. In Lifecycle, Start and Delete are one step each, and so is each edit of the state
-- file; the wait of 60 seconds and the ticker are steps that may come at any time. What
-- net/url and net make of a header or an address is part of the request; whether a port can be listened on,
-- and where a symbolic link leads, are parameters. Processes, pseudo
-- terminals and the other HTTP handlers are left out.
pub mod Prelude
pub mod Store
pub mod Git
pub mod Framework
pub mod Ws
pub mod Portal
pub mod Opencode
pub mod Pty
pub mod Worktree
pub mod App
pub mod Tag
pub mod Dsh
pub mod Version
