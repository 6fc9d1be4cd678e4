-- ===== src/Lib.antt =====
-- CloudAlertSystem: the server that keeps users' price and time alerts, evaluates them against market
-- data and tells their owners, and the clients that talk to it.
--
-- The server (Server/) is made of these parts. Server/TcpServer.cpp accepts clients, queues them and
-- lets 32 workers serve them; each worker runs a session (Server/ClientSession.cpp), which reads lines,
-- splits them into tokens and calls one handler per command. The handlers call the tables
-- (Server/AlertDB.cpp, over SQLite) and the alert engine (Server/AlertEngine.cpp). The engine keeps the
-- pending price alerts in a cache, evaluates them at each tick that Server/CTPMdHandler.cpp passes on,
-- evaluates time alerts once a second, and queues a notification for each alert that fires.
-- Server/Notifier.cpp takes the queue, and pushes each notification to the user's socket or mails it.
-- The clients are MFCClient/MainFrame.cpp and Client/main.cpp.
--
-- The files:
--   Common        lists, options, numbers, integers and association lists
--   Text          byte strings; Text.Split is SplitLine, Text.Number is atoi and "%d"
--   Double        the type `double`, as a parameter (Float)
--   Protocol      Server/Protocol.h
--   Db            Server/AlertDB.cpp: Db is the two tables; Users, Alerts and Queries have one function
--                 per method; History makes calls of the methods values, so that sequences of calls can
--                 be spoken of; Schema is the start of the file; Valid, Lifecycle, Outcome, Once,
--                 Accounts, Takeover, Listing prove
--   World         what lies outside: SQLite, the clocks, the sockets
--   Notifier      Server/Notifier.cpp; Config is LoadConfig; Settings, Sockets, Delivery and Wakeup
--                 prove
--   MdHandler     Server/CTPMdHandler.cpp; Callbacks has those that reach the engine
--   System        the objects that the threads share, AlertEngine's members among them
--   AlertEngine   Server/AlertEngine.cpp; Message has the texts of FireAlert; Coherent says what the
--                 cache is to the tables, and Cache, Kept, Upkeep, Timed, Due and Seconds are about
--                 that; Ticks, Queued, Complete and Race prove
--   ClientSession Server/ClientSession.cpp: HandleLogin is handle_login and so on; Lines has the answers,
--                 Receive has RecvLine, Commands the names that Dispatch compares; Handlers and Answers
--                 have the lemmas on single handlers; Effects, Guard, Identity, Replies, Listings, Crash
--                 and Wire prove; Caching, Settling, Settled and Consistent are about what a handler leaves of
--                 the cache
--   Service       Server/main.cpp: the start of the server, and Step and Reach, the steps of all its
--                 threads; Upkeep, History and Due prove
--   TcpServer     Server/TcpServer.cpp; Queue and Startup prove
--   MfcClient     the part of MFCClient/MainFrame.cpp that does not draw: Window has the members and
--                 the operations, Account the log-in, Editing the input fields, Lists the two refreshes
--                 of the list, Actions the handlers, Events the message map and the dialogs, Created
--                 the start, Notices the message for a fired alert, Commands the lines that the frame
--                 and the dialogs send; Frame, Current and Out have the lemmas on single operations;
--                 Fit, Shown, Offline, Received, Rows, Answer and Time prove
--   Client        Client/main.cpp and Client/TcpClient.cpp; Menu is main; Answer, Bounds and LoggedIn
--                 prove
--   Examples      the theorems at concrete data
--
-- A method that takes state returns the new state. A critical section of the source is held over each
-- access to shared data, so that such an access is one step; steps of different threads are put in any
-- order by Notifier.Wakeup.Reach, TcpServer.Queue.Steps and Service.Reach. In Service.Reach a handled
-- line, a tick and a round of the timer are each one step; AlertEngine.Race is about the two places where
-- the source gives other threads a turn in the middle, between a write and the refresh after it and
-- within the refresh. Steps of other threads between two records of one tick are not modelled.
--
-- What SQLite answers is the parameter Sqlite: which statements it prepares, which steps are done, how
-- many rows a SELECT gives before it ends, the order of a scan, and the rowids that it draws, which only
-- rise. A bound text ends at its first NUL (c_str). A rowid has 64 bits and is cut to an `int` (to_int).
-- `none` as the outcome of a session or an engine step means that a formatted text did not fit its
-- buffer: `_snprintf_s` with the size of the buffer as its count then calls the invalid parameter
-- handler, which ends the process.
--
-- Fuel: Notifier.worker_loop, for which the length of the queue and one is enough, and
-- ClientSession.Receive.recv_lines, for which the length of the input is enough.
--
-- The MFC client's dialogs, boxes and menus run message loops of their own: Window.modals are those that
-- are open, the frame's controls react only while there is none, messages come at any time, and a handler
-- that opens one is split there. The registration dialog is taken as a part of the login dialog that opens
-- it, and the boxes that only warn are left out, since nothing changes after them.
--
-- A socket that took a part of a message is not recorded in Notifier.pushed. LoadConfig reads its file as
-- bytes: the translation of line ends and the end at 0x1A of a text stream of Windows are left out. A
-- price that is no number is kept as it is, where SQLite stores NULL and reads 0 back. A round of the
-- console client ends where its input does, and what the source does after that is left out.
--
-- Not modelled: the loading of the mail DLL, what Windows, MFC and the market data API do, the layout and
-- the drawing of the MFC client with its toast and the boxes that only warn, the prompts of the console client,
-- the queues between the clients' receiver threads and their readers, the programs that try the mail DLL
-- by hand, and the headers of SQLite and of the market data API, which are other projects'.
pub mod Common
pub mod Text
pub mod Double
pub mod Protocol
pub mod Db
pub mod World
pub mod Notifier
pub mod MdHandler
pub mod System
pub mod AlertEngine
pub mod ClientSession
pub mod Service
pub mod TcpServer
pub mod MfcClient
pub mod Examples
pub mod Client
